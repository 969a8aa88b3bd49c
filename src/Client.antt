-- ===== src/Client.antt =====
-- client/retry.go and client/correlation.go: a sender that tries again, and one that adds a
-- correlation id. Waiting and `strings.EqualFold` are parameters.
pub mod Tries
pub mod Correlated
use benzene_go.Prelude.{
  ℕ, zero, suc, String, Bool, false, not, Option, none, some, [], ◌-◌, ◌*◌, ◌%◌, ◌^◌, ◌||◌, ◌∷◌,
  if◌then◌else◌, ◌==◌, string_eq, nat_eq,
}
use benzene_go.Maps.{Map, insert}
use benzene_go.Status.{Status, status_service_unavailable, status_too_many_requests}
use benzene_go.Result.{Result}

-- One message on its way: the result of sending it once, in a world.
abbrev pub Send : Type 0 → Type 0
Send W = W → Result String × W

-- `RetryOptions`; 0 attempts stands for every number that is not positive.
pub record RetryOptions : Type 0 where
  pub max_attempts : ℕ
  pub backoff : Option (ℕ → ℕ)
  pub should_retry : Option (Status → Bool)

unfoldable pub default_should_retry : Status → Bool
default_should_retry status =
    status == status_service_unavailable || status == status_too_many_requests

-- `defaultBackoff`, in nanoseconds, as the bits of an `int64`.
unfoldable pub default_backoff : ℕ → ℕ
default_backoff attempt = 100 * 2 ^ (attempt - 1) * 1000000 % 2 ^ 64

abbrev pub option_or : {A : Type 0} → Option A → A → A
option_or none a = a
option_or (some b) a = b

module _ {W : Type 0} (send : Send W) (wait : ℕ → W → Bool × W) (backoff : ℕ → ℕ)
    (should_retry : Status → Bool) where
  -- The loop, with the attempts that are left after this one; `wait` tells whether the context
  -- ended.
  unfoldable pub send_loop : ℕ → ℕ → Send W
  send_loop zero attempt w = send w
  send_loop (suc left) attempt w =
      let sent = send w in
      let waited = wait (backoff attempt) sent.1 in
      let again = send_loop left (suc attempt) waited.1 in
      if not (should_retry sent.0.status)
      then sent
      else if waited.0
      then (sent.0, waited.1)
      else again

-- `WithRetry`
unfoldable pub with_retry : {W : Type 0} → RetryOptions → (ℕ → W → Bool × W) → Send W → Send W
unfolding send_loop
with_retry options wait send =
    send_loop send wait (option_or options.backoff default_backoff)
      (option_or options.should_retry default_should_retry)
      ((if options.max_attempts == 0 then 3 else options.max_attempts) - 1) 1

unfoldable pub has_header : (String → String → Bool) → String → Map String String → Bool
has_header equal_fold key [] = false
has_header equal_fold key ((name, value) ∷ headers) =
    equal_fold name key || has_header equal_fold key headers

-- `withCorrelationID`
unfoldable pub with_correlation_id :
    (String → String → Bool) → String → Option String → Map String String → Map String String
unfolding has_header
with_correlation_id equal_fold key generated headers =
    if has_header equal_fold key headers
    then headers
    else elim generated [ none ↦ headers | some id ↦ insert key id headers ]
