-- ===== src/Result.antt =====
-- result.go: the outcome of a handler, its constructors, and the type-erased view `ResultInfo`.
-- A constructor that may panic returns a `Flow`. A dynamic value (`any`) is an element of a type
-- `V`, and `none` is a nil interface.
pub mod Laws
use benzene_go.Prelude.{
  String, Bool, false, not, Option, none, some, List, [], map, if◌then◌else◌, ◌==◌, string_eq,
  nat_eq,
}
use benzene_go.Flow.{Flow, ret, panic}
use benzene_go.Status.{
  Status, status_ok, status_created, status_accepted, status_updated, status_deleted,
  status_ignored, status_bad_request, status_validation_error, status_unauthorized,
  status_forbidden, status_not_found, status_conflict, status_too_many_requests, status_timeout,
  status_not_implemented, status_service_unavailable, status_unexpected_error, is_success,
  is_failure,
}
use Prim.Native.String
use benzene_go.Wire.{ProblemError, ErrorPayload, from_message}

pub record Result {ℓ} (A : Type ℓ) : Type ℓ where
  pub status : Status
  pub payload : Option A
  pub errors : List ProblemError
  pub successful : Option Bool
  pub problem : Option ErrorPayload
  pub unmatched : Bool

unfoldable pub errors_from_messages : List String → List ProblemError
unfolding from_message
errors_from_messages messages = map from_message messages

-- What remains of a result behind the interface `ResultInfo`: its three methods, the optional
-- interfaces (`none` where an implementation lacks the method), and whether it is the concrete
-- `Result[any]` with the mark of an unmatched topic.
pub record ResultInfo {ℓ} (V : Type ℓ) : Type ℓ where
  pub result_status : Status
  pub result_errors : List String
  pub result_payload : Option V
  pub result_is_successful : Option Bool
  pub result_problems : Option (List ProblemError)
  pub result_problem_document : Option (Option ErrorPayload)
  pub marked_unmatched : Bool

-- `ProblemsOf`
unfoldable pub problems_of {ℓ} : {V : Type ℓ} → ResultInfo V → List ProblemError
unfolding errors_from_messages
problems_of result = elim result.result_problems [
  | some problems ↦ problems
  | none ↦ errors_from_messages result.result_errors
]

-- `IsUnmatchedTopic`
unfoldable pub is_unmatched_topic {ℓ} : {V : Type ℓ} → ResultInfo V → Bool
is_unmatched_topic result = result.marked_unmatched

module _ {ℓ} {A : Type ℓ} where
  unfoldable pub is_successful : Result A → Bool
  is_successful r = elim r.successful [ some b ↦ b | none ↦ not (is_failure r.status) ]

  unfoldable pub result_errors : Result A → List String
  result_errors r = map (λ (e : ProblemError). e.message) r.errors

  -- A struct literal that sets the exported fields only.
  abbrev pub literal : Status → Option A → List ProblemError → Result A
  literal status payload errors = record {
    status = status;
    payload = payload;
    errors = errors;
    successful = none;
    problem = none;
    unmatched = false;
  }

  unfoldable pub success : Status → A → Result A
  success status payload = literal status (some payload) []

  unfoldable pub ok : A → Result A
  unfolding success
  ok payload = success status_ok payload

  unfoldable pub created : A → Result A
  unfolding success
  created payload = success status_created payload

  unfoldable pub accepted : A → Result A
  unfolding success
  accepted payload = success status_accepted payload

  unfoldable pub updated : A → Result A
  unfolding success
  updated payload = success status_updated payload

  unfoldable pub deleted : A → Result A
  unfolding success
  deleted payload = success status_deleted payload

  unfoldable pub ignored : A → Result A
  unfolding success
  ignored payload = success status_ignored payload

  -- The literal that `FailWith` builds.
  abbrev pub failed : Status → List ProblemError → Result A
  failed status errors = record (literal status none errors) { successful = some false }

  unfoldable pub fail_with : Status → List ProblemError → Flow (Result A)
  fail_with status errors =
      if is_success status
      then panic (String.◌++◌ "benzene: FailWith called with a success-class status " status)
      else ret (failed status errors)

  unfoldable pub fail : Status → List String → Flow (Result A)
  unfolding fail_with errors_from_messages
  fail status errors =
      if is_success status
      then panic (String.◌++◌ "benzene: Fail called with a success-class status " status)
      else fail_with status (errors_from_messages errors)

  unfoldable pub problem_result : ErrorPayload → Flow (Result A)
  problem_result problem =
      if problem.benzene_status == ""
      then panic
          "benzene: ProblemResult requires problem.BenzeneStatus - a problem document with no status cannot be classified"
      else ret (record (failed problem.benzene_status problem.errors) { problem = some problem })

  unfoldable pub validation_error_with : List ProblemError → Flow (Result A)
  unfolding fail_with is_success
  validation_error_with errors = fail_with status_validation_error errors

  unfoldable pub bad_request : List String → Flow (Result A)
  unfolding fail is_success
  bad_request errors = fail status_bad_request errors

  unfoldable pub validation_error : List String → Flow (Result A)
  unfolding fail is_success
  validation_error errors = fail status_validation_error errors

  unfoldable pub unauthorized : List String → Flow (Result A)
  unfolding fail is_success
  unauthorized errors = fail status_unauthorized errors

  unfoldable pub forbidden : List String → Flow (Result A)
  unfolding fail is_success
  forbidden errors = fail status_forbidden errors

  unfoldable pub not_found : List String → Flow (Result A)
  unfolding fail is_success
  not_found errors = fail status_not_found errors

  unfoldable pub conflict : List String → Flow (Result A)
  unfolding fail is_success
  conflict errors = fail status_conflict errors

  unfoldable pub too_many_requests : List String → Flow (Result A)
  unfolding fail is_success
  too_many_requests errors = fail status_too_many_requests errors

  unfoldable pub timeout : List String → Flow (Result A)
  unfolding fail is_success
  timeout errors = fail status_timeout errors

  unfoldable pub not_implemented : List String → Flow (Result A)
  unfolding fail is_success
  not_implemented errors = fail status_not_implemented errors

  unfoldable pub service_unavailable : List String → Flow (Result A)
  unfolding fail is_success
  service_unavailable errors = fail status_service_unavailable errors

  unfoldable pub unexpected_error : List String → Flow (Result A)
  unfolding fail is_success
  unexpected_error errors = fail status_unexpected_error errors

-- A `Result[T]` as a `ResultInfo`; `to_any` makes a payload a dynamic value, nil or not.
unfoldable pub erase {ℓ} : {A V : Type ℓ} → (A → Option V) → Result A → ResultInfo V
unfolding is_successful result_errors
erase to_any r = record {
  result_status = r.status;
  result_errors = result_errors r;
  result_payload = elim r.payload [ none ↦ none | some a ↦ to_any a ];
  result_is_successful = some (is_successful r);
  result_problems = some r.errors;
  result_problem_document = some r.problem;
  marked_unmatched = r.unmatched;
}
