-- ===== src/Resilience.antt =====
-- resilience/: the failure vocabulary that retry and fallback share, and the four middlewares.
pub mod Retry
pub mod Fallback
pub mod Bulkhead
pub mod Timeout
use benzene_go.Prelude.{
  Bool, false, not, Option, none, some, List, contains, ◌||◌, string_eq, nat_eq,
}
use benzene_go.Flow.{Err, is_canceled, is_deadline_exceeded}
use benzene_go.Status.{Status, is_failure}
use benzene_go.Result.{ResultInfo}

-- `resultSuccessful`
unfoldable pub result_successful : {V : Type 0} → Option (ResultInfo V) → Bool
result_successful none = false
result_successful (some r) = elim r.result_is_successful [
  | some b ↦ b
  | none ↦ not (is_failure r.result_status)
]

-- `RetryUnsuccessful` and `FallbackUnsuccessful`
unfoldable pub unsuccessful : {V : Type 0} → Option (ResultInfo V) → Bool
unfolding result_successful
unsuccessful result = not (result_successful result)

-- `RetryOnStatus` and `FallbackOnStatus`
unfoldable pub on_status : {V : Type 0} → List Status → Option (ResultInfo V) → Bool
on_status statuses none = false
on_status statuses (some r) = contains statuses r.result_status

-- `defaultRetryOnError`
unfoldable pub default_on_error : Err → Bool
unfolding is_canceled is_deadline_exceeded
default_on_error err = not (is_canceled err || is_deadline_exceeded err)

-- `neverRetryResult`
unfoldable pub never_result : {V : Type 0} → Option (ResultInfo V) → Bool
never_result result = false
