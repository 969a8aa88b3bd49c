-- ===== src/Status.antt =====
-- status.go: the result status is an open wire string; the framework defines seventeen of them.
pub mod Laws
use benzene_go.Prelude.{String, Bool, List, [], contains, ◌||◌, ◌∷◌, string_eq, nat_eq}

abbrev pub Status : Type 0
Status = String

abbrev pub status_ok : Status
status_ok = "ok"

abbrev pub status_created : Status
status_created = "created"

abbrev pub status_accepted : Status
status_accepted = "accepted"

abbrev pub status_updated : Status
status_updated = "updated"

abbrev pub status_deleted : Status
status_deleted = "deleted"

abbrev pub status_ignored : Status
status_ignored = "ignored"

abbrev pub status_bad_request : Status
status_bad_request = "bad-request"

abbrev pub status_validation_error : Status
status_validation_error = "validation-error"

abbrev pub status_unauthorized : Status
status_unauthorized = "unauthorized"

abbrev pub status_forbidden : Status
status_forbidden = "forbidden"

abbrev pub status_not_found : Status
status_not_found = "not-found"

abbrev pub status_conflict : Status
status_conflict = "conflict"

abbrev pub status_too_many_requests : Status
status_too_many_requests = "too-many-requests"

abbrev pub status_timeout : Status
status_timeout = "timeout"

abbrev pub status_not_implemented : Status
status_not_implemented = "not-implemented"

abbrev pub status_service_unavailable : Status
status_service_unavailable = "service-unavailable"

abbrev pub status_unexpected_error : Status
status_unexpected_error = "unexpected-error"

-- The keys of the map `successStatuses`; each holds `true`.
abbrev pub success_statuses : List Status
success_statuses =
    status_ok ∷ status_created ∷ status_accepted ∷ status_updated ∷ status_deleted ∷ status_ignored
    ∷ []

-- The keys of the map `failureStatuses`.
abbrev pub failure_statuses : List Status
failure_statuses =
    status_bad_request ∷ status_validation_error ∷ status_unauthorized ∷ status_forbidden
    ∷ status_not_found ∷ status_conflict ∷ status_too_many_requests ∷ status_timeout
    ∷ status_not_implemented ∷ status_service_unavailable ∷ status_unexpected_error ∷ []

unfoldable pub is_success : Status → Bool
is_success s = contains success_statuses s

unfoldable pub is_failure : Status → Bool
is_failure s = contains failure_statuses s

unfoldable pub is_known : Status → Bool
unfolding is_success is_failure
is_known s = is_success s || is_failure s
