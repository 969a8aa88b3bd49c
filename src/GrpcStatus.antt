-- ===== src/GrpcStatus.antt =====
-- grpcstatus/mapping.go: the two gRPC tables, with the numeric codes that the file names.
pub mod Laws
use benzene_go.Prelude.{ℕ, Bool, List, [], switch, ◌∷◌, if◌then◌else◌, string_eq, nat_eq}
use benzene_go.HttpStatus.{first_flag}
use benzene_go.Status.{
  Status, status_ok, status_created, status_accepted, status_updated, status_deleted,
  status_ignored, status_bad_request, status_validation_error, status_unauthorized,
  status_forbidden, status_not_found, status_conflict, status_too_many_requests, status_timeout,
  status_not_implemented, status_service_unavailable, status_unexpected_error,
}

abbrev pub code_ok : ℕ
code_ok = 0

abbrev pub code_cancelled : ℕ
code_cancelled = 1

abbrev pub code_invalid_argument : ℕ
code_invalid_argument = 3

abbrev pub code_deadline_exceeded : ℕ
code_deadline_exceeded = 4

abbrev pub code_not_found : ℕ
code_not_found = 5

abbrev pub code_already_exists : ℕ
code_already_exists = 6

abbrev pub code_permission_denied : ℕ
code_permission_denied = 7

abbrev pub code_resource_exhausted : ℕ
code_resource_exhausted = 8

abbrev pub code_unimplemented : ℕ
code_unimplemented = 12

abbrev pub code_internal : ℕ
code_internal = 13

abbrev pub code_unavailable : ℕ
code_unavailable = 14

abbrev pub code_data_loss : ℕ
code_data_loss = 15

abbrev pub code_unauthenticated : ℕ
code_unauthenticated = 16

abbrev pub grpc_rows : List (List Status × ℕ)
grpc_rows =
    (
      status_ok ∷ status_ignored ∷ status_created ∷ status_accepted ∷ status_updated
          ∷ status_deleted ∷ [],
      code_ok,
    )
    ∷ (status_bad_request ∷ status_validation_error ∷ [], code_invalid_argument)
    ∷ (status_unauthorized ∷ [], code_unauthenticated)
    ∷ (status_forbidden ∷ [], code_permission_denied)
    ∷ (status_not_found ∷ [], code_not_found)
    ∷ (status_conflict ∷ [], code_already_exists)
    ∷ (status_not_implemented ∷ [], code_unimplemented)
    ∷ (status_service_unavailable ∷ [], code_unavailable)
    ∷ (status_too_many_requests ∷ [], code_resource_exhausted)
    ∷ (status_timeout ∷ [], code_deadline_exceeded)
    ∷ (status_unexpected_error ∷ [], code_internal)
    ∷ []

unfoldable pub to_grpc : Status → List Bool → ℕ
to_grpc status is_successful =
    switch status grpc_rows (if first_flag is_successful then code_ok else code_internal)

abbrev pub status_rows : List (List ℕ × Status)
status_rows =
    (code_ok ∷ [], status_ok)
    ∷ (code_invalid_argument ∷ [], status_bad_request)
    ∷ (code_unauthenticated ∷ [], status_unauthorized)
    ∷ (code_permission_denied ∷ [], status_forbidden)
    ∷ (code_not_found ∷ [], status_not_found)
    ∷ (code_already_exists ∷ [], status_conflict)
    ∷ (code_unimplemented ∷ [], status_not_implemented)
    ∷ (code_unavailable ∷ [], status_service_unavailable)
    ∷ (code_resource_exhausted ∷ [], status_too_many_requests)
    ∷ (code_deadline_exceeded ∷ [], status_timeout)
    ∷ (code_cancelled ∷ [], status_service_unavailable)
    ∷ (code_data_loss ∷ code_internal ∷ [], status_unexpected_error)
    ∷ []

unfoldable pub from_grpc : ℕ → Status
from_grpc code = switch code status_rows status_unexpected_error
