-- ===== src/Cors/Allowed.antt =====
-- An origin is let in only by the list of allowed origins.
use benzene_go.Prelude.{
  String, refl, inl, inr, Bool, false, not, Option, none, some, List, [], arith, Bool-cases, length,
  ◌≡◌, ◌&&◌, ◌||◌, ◌∷◌, if◌then◌else◌, ◌==◌, string_eq, nat_eq,
}
use benzene_go.Cors.{
  Library, Settings, Route, HttpRequest, methods_for_path, origin_matches, match_origin,
  requested_headers_allowed, allow_headers, answer,
}

-- The value of a header that is set.
unfoldable pub header_of : String → List (String × String) → Option String
header_of name [] = none
header_of name ((other, value) ∷ headers) =
    let rest = header_of name headers in if other == name then some value else rest

module _ (lib : Library) where
  -- Whether some entry of a list matches an origin.
  unfoldable pub any_matches : List String → String → Bool
  any_matches [] origin = false
  any_matches (allowed ∷ origins) origin =
      origin_matches lib allowed origin || any_matches origins origin

  match_origin-any_matches :
      (origins : List String) (origin : String)
      → match_origin lib origins origin ≡ (if any_matches origins origin then origin else "")
  unfolding match_origin any_matches
  match_origin-any_matches [] origin = refl
  match_origin-any_matches (allowed ∷ origins) origin =
      ground (arith, match_origin-any_matches origins origin)

  -- A response carries an `Access-Control-Allow-Origin` exactly if the request has an origin, its
  -- path has a route, an allowed origin matches, and every requested header is allowed; its value
  -- is then the request's own origin.
  pub answer-header_of :
      (settings : Settings) (routes : List Route) (r : HttpRequest)
      → header_of "Access-Control-Allow-Origin" (answer lib settings routes r).headers ≡ (
          if not (r.origin == "")
            && not (length (methods_for_path lib routes r.path []) == 0)
            && any_matches settings.allowed_origins r.origin
            && requested_headers_allowed lib settings.allowed_headers r
          then some r.origin
          else none)
  unfolding answer header_of allow_headers
  answer-header_of settings routes r =
      let methods = length (methods_for_path lib routes r.path []) in
      let matches = any_matches settings.allowed_origins r.origin in
      let may = requested_headers_allowed lib settings.allowed_headers r in
      rw (match_origin-any_matches settings.allowed_origins r.origin, answer)
        (elim (Bool-cases (r.origin == "")) [
          | inl no_origin ↦ rw (no_origin, answer) refl
          | inr from ↦ elim (Bool-cases (methods == 0)) [
            | inl no_route ↦ rw from (rw no_route refl)
            | inr routed ↦ elim (Bool-cases matches) [
              | inl known ↦
                  rw (known, from, routed)
                    (elim (Bool-cases may) [
                      | inl fits ↦ rw fits refl
                      | inr barred ↦ rw barred refl
                    ])
              | inr unknown ↦ rw (unknown, from, routed) refl
            ]
          ]
        ])
