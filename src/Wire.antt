-- ===== src/Wire.antt =====
-- wire/envelope.go, wire/problem.go and wire/metadata.go: envelopes, problem documents, and the
-- names under which a message's version and topic travel.
use Prim.Native.String
use benzene_go.Prelude.{
  ℕ, String, Bool, Option, none, some, List, [], map, ◌∷◌, if◌then◌else◌, ◌==◌, string_eq, nat_eq,
}
use benzene_go.Maps.{Map, lookup}
use benzene_go.Status.{
  Status, status_bad_request, status_unauthorized, status_forbidden, status_not_found,
  status_conflict, status_validation_error, status_too_many_requests, status_unexpected_error,
  status_not_implemented, status_service_unavailable, status_timeout,
}

pub record Request : Type 0 where
  pub topic : String
  pub headers : Map String String
  pub body : String

pub record Response : Type 0 where
  pub status_code : String
  pub headers : Map String String
  pub body : String
  pub is_successful : Option Bool

pub record ProblemError : Type 0 where
  pub message : String
  pub field : String
  pub code : String

-- `Type` and `Instance` are the two URIs of a problem document.
pub record ErrorPayload : Type 0 where
  pub type_uri : String
  pub title : String
  pub status : Option ℕ
  pub detail : String
  pub instance_uri : String
  pub benzene_status : String
  pub errors : List ProblemError

abbrev pub problem_base : String
problem_base = "https://benzene.app/problems/"

pub record ProblemRow : Type 0 where
  pub slug : String
  pub title : String
  pub status : ℕ

abbrev row : String → String → ℕ → ProblemRow
row slug title status = record { slug = slug; title = title; status = status }

abbrev pub problem_registry : Map String ProblemRow
problem_registry =
    (status_bad_request, row "bad-request" "Bad request" 400)
    ∷ (status_unauthorized, row "unauthorized" "Unauthorized" 401)
    ∷ (status_forbidden, row "forbidden" "Forbidden" 403)
    ∷ (status_not_found, row "not-found" "Not found" 404)
    ∷ (status_conflict, row "conflict" "Conflict" 409)
    ∷ (status_validation_error, row "validation-error" "Validation failed" 422)
    ∷ (status_too_many_requests, row "too-many-requests" "Too many requests" 429)
    ∷ (status_unexpected_error, row "unexpected-error" "Unexpected error" 500)
    ∷ (status_not_implemented, row "not-implemented" "Not implemented" 501)
    ∷ (status_service_unavailable, row "service-unavailable" "Service unavailable" 503)
    ∷ (status_timeout, row "timeout" "Timeout" 504)
    ∷ []

abbrev type_of_row : Option ProblemRow → String
type_of_row none = ""
type_of_row (some r) = String.◌++◌ problem_base r.slug

unfoldable pub problem_type : Status → String
unfolding lookup
problem_type status = type_of_row (lookup status problem_registry)

abbrev title_of_row : Option ProblemRow → String
title_of_row none = ""
title_of_row (some r) = r.title

unfoldable pub problem_title : Status → String
unfolding lookup
problem_title status = title_of_row (lookup status problem_registry)

abbrev code_of_row : Option ProblemRow → ℕ
code_of_row none = 500
code_of_row (some r) = r.status

unfoldable pub problem_http_status : Status → ℕ
unfolding lookup
problem_http_status status = code_of_row (lookup status problem_registry)

-- strings.Join(texts, ", ")
unfoldable pub join_comma : List String → String
join_comma [] = ""
join_comma (t ∷ []) = t
join_comma (t ∷ u ∷ ts) = String.◌++◌ t (String.◌++◌ ", " (join_comma (u ∷ ts)))

unfoldable pub new_problem : Status → List ProblemError → ErrorPayload
new_problem status errors = record {
  type_uri = problem_type status;
  title = problem_title status;
  status = none;
  detail = join_comma (map (λ e. e.message) errors);
  instance_uri = "";
  benzene_status = status;
  errors = errors;
}

unfoldable pub from_message : String → ProblemError
from_message message = record { message = message; field = ""; code = "" }

unfoldable pub new_error_payload : Status → List String → ErrorPayload
unfolding new_problem from_message
new_error_payload status errors = new_problem status (map from_message errors)

-- The entries that carry a message.
unfoldable pub with_message : List ProblemError → List ProblemError
with_message [] = []
with_message (e ∷ es) = let rest = with_message es in if e.message == "" then rest else e ∷ rest

abbrev from_detail : String → List ProblemError
from_detail detail = if detail == "" then [] else from_message detail ∷ []

unfoldable pub problems : ErrorPayload → List ProblemError
unfolding with_message from_message
problems payload = elim payload.errors [
  | [] ↦ from_detail payload.detail
  | e ∷ es ↦ with_message (e ∷ es)
]

unfoldable pub messages : ErrorPayload → List String
unfolding with_message
messages payload = elim payload.errors [
  | [] ↦ if payload.detail == "" then [] else payload.detail ∷ []
  | e ∷ es ↦ map (λ (item : ProblemError). item.message) (with_message (e ∷ es))
]
