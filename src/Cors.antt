-- ===== src/Cors.antt =====
-- cors/cors.go: which headers an HTTP response gets, and whether the request goes on. net/url and
-- the functions of `strings` on letters and spaces are parameters.
pub mod Allowed
use benzene_go.Prelude.{
  String, Bool, true, false, not, Option, none, some, List, [], ltb, length, contains, ◌*◌, ◌&&◌,
  ◌||◌, ◌∷◌, ◌++◌, if◌then◌else◌, ◌==◌, string_eq, nat_eq,
}
use benzene_go.Prelude.Splits.{split}
use Prim.Native.String

-- The parts of a `*url.URL` that are read.
pub record Origin : Type 0 where
  pub scheme : String
  pub host : String
  pub hostname : String
  pub is_abs : Bool

pub record Library : Type 0 where
  pub parse : String → Option Origin
  pub equal_fold : String → String → Bool
  pub to_lower : String → String
  pub to_upper : String → String
  pub trim_space : String → String
  pub trim_slash : String → String

-- `Settings`; the maximal age is in whole seconds, by its text, and "" where it is not positive.
pub record Settings : Type 0 where
  pub allowed_origins : List String
  pub allowed_headers : List String
  pub exposed_headers : List String
  pub max_age : String
  pub allow_credentials : Bool

pub record Route : Type 0 where
  pub method : String
  pub path : String

-- What is read of an `*http.Request`; a header that is absent is "".
pub record HttpRequest : Type 0 where
  pub method : String
  pub path : String
  pub origin : String
  pub requested_headers : String

-- The headers that are set, in order, and whether the next handler runs (else the status is 200).
pub record Answer : Type 0 where
  pub headers : List (String × String)
  pub goes_on : Bool

-- strings.Join(texts, ",")
unfoldable pub join_with_comma : List String → String
join_with_comma [] = ""
join_with_comma (t ∷ []) = t
join_with_comma (t ∷ u ∷ ts) = String.◌++◌ t (String.◌++◌ "," (join_with_comma (u ∷ ts)))

-- `containsWildcard`
unfoldable pub contains_wildcard : List String → Bool
contains_wildcard headers = contains headers "*"

module _ (lib : Library) where
  -- `methodsForPath`; `seen` are the methods so far.
  unfoldable pub methods_for_path : List Route → String → List String → List String
  methods_for_path [] path seen = []
  methods_for_path (route ∷ routes) path seen =
      let method = lib.to_upper route.method in
      let skipped = methods_for_path routes path seen in
      let rest = methods_for_path routes path (method ∷ seen) in
      if not (route.path == path) || contains seen method then skipped else method ∷ rest

  abbrev pub recognized_schemes : List String
  recognized_schemes = "http" ∷ "https" ∷ "ws" ∷ "wss" ∷ []

  -- `parseOrigin`
  unfoldable pub parse_origin : String → Option Origin
  parse_origin value = elim (lib.parse value) [
    | none ↦ none
    | some u ↦
        if not u.is_abs || u.host == "" || not (contains recognized_schemes (lib.to_lower u.scheme))
        then none
        else some u
  ]

  -- `hostOf`
  unfoldable pub host_of : String → String
  unfolding parse_origin
  host_of value = elim (parse_origin value) [ none ↦ lib.trim_slash value | some u ↦ u.hostname ]

  -- `originMatches`
  unfoldable pub origin_matches : String → String → Bool
  unfolding parse_origin host_of
  origin_matches allowed origin =
      let by_host = lib.equal_fold (host_of allowed) (host_of origin) in
      if allowed == "*" then true else elim (parse_origin allowed) [
        | none ↦ by_host
        | some a ↦ elim (parse_origin origin) [
          | none ↦ by_host
          | some o ↦ lib.equal_fold a.scheme o.scheme && lib.equal_fold a.host o.host
        ]
      ]

  -- `matchOrigin`
  unfoldable pub match_origin : List String → String → String
  unfolding origin_matches
  match_origin [] origin = ""
  match_origin (allowed ∷ origins) origin =
      let rest = match_origin origins origin in
      if origin_matches allowed origin then origin else rest

  -- `containsFold`
  unfoldable pub contains_fold : List String → String → Bool
  contains_fold [] target = false
  contains_fold (item ∷ items) target = lib.equal_fold item target || contains_fold items target

  unfoldable pub all_allowed : List String → List String → Bool
  unfolding contains_fold
  all_allowed allowed [] = true
  all_allowed allowed (header ∷ headers) =
      contains_fold allowed (lib.trim_space header) && all_allowed allowed headers

  -- `requestedHeadersAllowed`
  unfoldable pub requested_headers_allowed : List String → HttpRequest → Bool
  unfolding contains_wildcard all_allowed split
  requested_headers_allowed allowed r =
      contains_wildcard allowed
      || r.requested_headers == ""
      || all_allowed allowed (split "," r.requested_headers)

  -- `resolveAllowedHeaders`
  unfoldable pub resolve_allowed_headers : List String → HttpRequest → String
  unfolding contains_wildcard join_with_comma
  resolve_allowed_headers allowed r =
      if not (contains_wildcard allowed)
      then join_with_comma allowed
      else if r.requested_headers == ""
      then "*"
      else r.requested_headers

  -- The headers of an allowed request.
  unfoldable pub allow_headers :
      Settings → List String → String → HttpRequest → List (String × String)
  unfolding resolve_allowed_headers join_with_comma
  allow_headers settings methods matched r =
      ("Access-Control-Allow-Origin", matched)
      ∷ ("Access-Control-Allow-Headers", resolve_allowed_headers settings.allowed_headers r)
      ∷ ("Access-Control-Allow-Methods", String.◌++◌ "OPTIONS," (join_with_comma methods))
      ∷ ((if settings.allow_credentials
            then ("Access-Control-Allow-Credentials", "true") ∷ []
            else [])
          ++ (if r.method == "OPTIONS"
              then if settings.max_age == ""
                then []
                else ("Access-Control-Max-Age", settings.max_age) ∷ []
              else if ltb 0 (length settings.exposed_headers)
              then ("Access-Control-Expose-Headers", join_with_comma settings.exposed_headers) ∷ []
              else []))

  -- `Middleware`
  unfoldable pub answer : Settings → List Route → HttpRequest → Answer
  unfolding methods_for_path match_origin requested_headers_allowed allow_headers
  answer settings routes r =
      let methods = methods_for_path routes r.path [] in
      let matched = match_origin settings.allowed_origins r.origin in
      let allowed = not (matched == "") && requested_headers_allowed settings.allowed_headers r in
      if r.origin == "" || length methods == 0
      then record { headers = []; goes_on = true }
      else record {
        headers =
            ("Vary", "Origin") ∷ (if allowed then allow_headers settings methods matched r else []);
        goes_on = not (r.method == "OPTIONS");
      }
