-- ===== src/Client/Tries.antt =====
-- How often a message is sent.
use benzene_go.Prelude.{
  ℕ, zero, suc, String, refl, inl, inr, Bool, true, false, arith, Bool-cases, ◌+◌, ◌-◌, ◌≤◌, ◌≡◌,
  ◌⊎◌, if◌then◌else◌, ◌==◌, string_eq, nat_eq,
}
use benzene_go.Status.{Status}
use benzene_go.Result.{Result}
use benzene_go.Client.{
  Send, RetryOptions, option_or, default_backoff, default_should_retry, send_loop, with_retry,
}

module _ {W : Type 0} (send : Send W) (wait : ℕ → W → Bool × W) (backoff : ℕ → ℕ)
    (should_retry : Status → Bool) (limit : ℕ) where
  -- The sends from one world on, by number: every one but the last got a status that is worth
  -- another try, and was followed by a wait that was not cut short. The last got a status that is
  -- not, or has the number of the limit, or was followed by a wait that was cut short.
  pub data Sent : ℕ → ℕ → W → Result String → W → Type 0 where
    final :
        (attempt : ℕ) (w w' : W) (result : Result String)
        → send w ≡ (result, w')
        → (should_retry result.status ≡ false) ⊎ (attempt ≡ limit)
        → Sent 1 attempt w result w'
    given_up :
        (attempt : ℕ) (w w' w'' : W) (result : Result String)
        → send w ≡ (result, w')
        → should_retry result.status ≡ true
        → wait (backoff attempt) w' ≡ (true, w'')
        → Sent 1 attempt w result w''
    retried :
        (n attempt : ℕ) (w w' w'' w''' : W) (failed result : Result String)
        → send w ≡ (failed, w')
        → should_retry failed.status ≡ true
        → wait (backoff attempt) w' ≡ (false, w'')
        → Sent n (suc attempt) w'' result w'''
        → Sent (suc n) attempt w result w'''

  send_loop-Sent :
      (left attempt : ℕ) (w : W)
      → left + attempt ≡ limit
      → (n : ℕ) × Sent n attempt w
          (send_loop send wait backoff should_retry left attempt w).0
          (send_loop send wait backoff should_retry left attempt w).1
        × (1 ≤ n)
        × (n ≤ suc left)
  unfolding send_loop
  send_loop-Sent zero attempt w in_all = (
    1,
    final attempt w (send w).1 (send w).0 refl (inr (omega (arith, in_all))),
    omega arith,
    omega arith,
  )
  send_loop-Sent (suc left) attempt w in_all =
      let sent = send w in
      let waited = wait (backoff attempt) sent.1 in
      elim (Bool-cases (should_retry sent.0.status)) [
        | inr done ↦
            rw done (1, final attempt w sent.1 sent.0 refl (inl done), omega arith, omega arith)
        | inl worth ↦ elim (Bool-cases waited.0) [
          | inl cut ↦
              rw (worth, cut)
                (
                  1,
                  given_up attempt w sent.1 waited.1 sent.0 refl worth (λ i. (cut i, waited.1)),
                  omega arith,
                  omega arith,
                )
          | inr rested ↦
              let (n, rest, at_least, at_most) =
                send_loop-Sent left (suc attempt) waited.1 (omega (arith, in_all)) in
              rw (worth, rested)
                (
                  suc n,
                  retried n attempt w sent.1 waited.1 _ sent.0 _ refl worth
                      (λ i. (rested i, waited.1)) rest,
                  omega (arith, at_least),
                  omega (arith, at_most),
                )
        ]
      ]

-- Whatever the options, the sender and the waits: `WithRetry` returns the outcome of a positive
-- number of sends within the limit (3 if none is set). All but the last got a status that is worth
-- another try, and were followed by their backoff; the last got one that is not, or was the
-- limit's, or the wait after it was cut short.
pub with_retry-Sent :
    {W : Type 0} (options : RetryOptions) (send : Send W) (wait : ℕ → W → Bool × W) (w : W)
    → (n : ℕ) × Sent send wait
        (option_or options.backoff default_backoff)
        (option_or options.should_retry default_should_retry)
        (if options.max_attempts == 0 then 3 else options.max_attempts)
        n
        1
        w
        (with_retry options wait send w).0
        (with_retry options wait send w).1
      × (1 ≤ n)
      × (n ≤ (if options.max_attempts == 0 then 3 else options.max_attempts))
unfolding with_retry
with_retry-Sent options send wait w =
    let limit = if options.max_attempts == 0 then 3 else options.max_attempts in
    let (n, sent, at_least, at_most) =
      send_loop-Sent send wait (option_or options.backoff default_backoff)
        (option_or options.should_retry default_should_retry) limit (limit - 1) 1 w
        (ground arith) in
    (n, sent, at_least, ground (arith, at_most))
