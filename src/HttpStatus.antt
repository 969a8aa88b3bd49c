-- ===== src/HttpStatus.antt =====
-- httpstatus/mapping.go: the two status tables. A variadic `isSuccessful ...bool` is a list.
pub mod Laws
use benzene_go.Prelude.{ℕ, Bool, false, List, [], switch, ◌∷◌, if◌then◌else◌, string_eq, nat_eq}
use benzene_go.Status.{
  Status, status_ok, status_created, status_accepted, status_updated, status_deleted,
  status_ignored, status_bad_request, status_validation_error, status_unauthorized,
  status_forbidden, status_not_found, status_conflict, status_too_many_requests, status_timeout,
  status_not_implemented, status_service_unavailable, status_unexpected_error,
}

-- `len(isSuccessful) > 0 && isSuccessful[0]`
abbrev pub first_flag : List Bool → Bool
first_flag [] = false
first_flag (b ∷ bs) = b

-- The cases of the switch of `ToHTTP`, in order.
abbrev pub http_rows : List (List Status × ℕ)
http_rows =
    (status_ok ∷ status_ignored ∷ [], 200)
    ∷ (status_created ∷ [], 201)
    ∷ (status_accepted ∷ [], 202)
    ∷ (status_updated ∷ status_deleted ∷ [], 204)
    ∷ (status_bad_request ∷ [], 400)
    ∷ (status_unauthorized ∷ [], 401)
    ∷ (status_forbidden ∷ [], 403)
    ∷ (status_not_found ∷ [], 404)
    ∷ (status_conflict ∷ [], 409)
    ∷ (status_validation_error ∷ [], 422)
    ∷ (status_too_many_requests ∷ [], 429)
    ∷ (status_not_implemented ∷ [], 501)
    ∷ (status_service_unavailable ∷ [], 503)
    ∷ (status_timeout ∷ [], 504)
    ∷ (status_unexpected_error ∷ [], 500)
    ∷ []

unfoldable pub to_http : Status → List Bool → ℕ
to_http status is_successful =
    switch status http_rows (if first_flag is_successful then 200 else 500)

abbrev pub status_rows : List (List ℕ × Status)
status_rows =
    (200 ∷ [], status_ok)
    ∷ (201 ∷ [], status_created)
    ∷ (202 ∷ [], status_accepted)
    ∷ (204 ∷ [], status_deleted)
    ∷ (400 ∷ [], status_bad_request)
    ∷ (401 ∷ [], status_unauthorized)
    ∷ (403 ∷ [], status_forbidden)
    ∷ (404 ∷ [], status_not_found)
    ∷ (408 ∷ [], status_timeout)
    ∷ (409 ∷ [], status_conflict)
    ∷ (422 ∷ [], status_validation_error)
    ∷ (429 ∷ [], status_too_many_requests)
    ∷ (501 ∷ [], status_not_implemented)
    ∷ (502 ∷ 503 ∷ [], status_service_unavailable)
    ∷ (504 ∷ [], status_timeout)
    ∷ []

unfoldable pub from_http : ℕ → Status
from_http code = switch code status_rows status_unexpected_error
