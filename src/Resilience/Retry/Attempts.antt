-- ===== src/Resilience/Retry/Attempts.antt =====
-- The retry loop against a relation that lists its attempts one by one.
use benzene_go.Prelude.{
  ℕ, zero, suc, String, refl, inl, inr, true, false, Option, none, some, arith, Bool-cases, ◌+◌,
  ◌≤◌, ◌≡◌,
}
use benzene_go.Flow.{Err, Flow, ret, panic}
use benzene_go.Pipeline.{Ctx, State, Next}
use benzene_go.Resilience.Retry.{
  Config, retryable, back_off, retry_loop, retry, Floats, grow_delay, max_int64,
}

module _ {C V W : Type 0} (cfg : Config C V W) (ctx : Ctx C) (next : Next C V W) where
  -- `Attempts left delay s n r s'`: with `left` retries to go and `delay` the next pause, the call
  -- in `s` makes `n` attempts and ends as `r` in `s'`.
  pub data Attempts : ℕ → ℕ → State V W → ℕ → Flow (Option Err) → State V W → Type 0 where
    settled :
        {left delay : ℕ} {s s' : State V W} {err : Option Err}
        → next ctx s ≡ (ret err, s')
        → retryable cfg err s'.ic.result ≡ false
        → Attempts left delay s 1 (ret err) s'
    exhausted :
        {delay : ℕ} {s s' : State V W} {err : Option Err}
        → next ctx s ≡ (ret err, s')
        → retryable cfg err s'.ic.result ≡ true
        → Attempts zero delay s 1 (ret err) s'
    crashed :
        {left delay : ℕ} {s s' : State V W} {text : String}
        → next ctx s ≡ (panic text, s')
        → Attempts left delay s 1 (panic text) s'
    interrupted :
        {left delay : ℕ} {s s' t : State V W} {err : Option Err} {stop : Err}
        → next ctx s ≡ (ret err, s')
        → retryable cfg err s'.ic.result ≡ true
        → back_off cfg ctx next delay s' ≡ (ret (some stop), t)
        → Attempts (suc left) delay s 1 (ret (some stop)) t
    sleep_crashed :
        {left delay : ℕ} {s s' t : State V W} {err : Option Err} {text : String}
        → next ctx s ≡ (ret err, s')
        → retryable cfg err s'.ic.result ≡ true
        → back_off cfg ctx next delay s' ≡ (panic text, t)
        → Attempts (suc left) delay s 1 (panic text) t
    again :
        {left delay n : ℕ} {s s' t u : State V W} {err : Option Err} {r : Flow (Option Err)}
        → next ctx s ≡ (ret err, s')
        → retryable cfg err s'.ic.result ≡ true
        → back_off cfg ctx next delay s' ≡ (ret none, t)
        → Attempts left (cfg.grow delay) t n r u
        → Attempts (suc left) delay s (suc n) r u

  -- What the relation allows is what the loop does.
  pub Attempts-retry_loop :
      {left delay n : ℕ} {s s' : State V W} {r : Flow (Option Err)}
      → Attempts left delay s n r s'
      → retry_loop cfg ctx next left delay s ≡ (r, s')
  unfolding retry_loop
  Attempts-retry_loop (settled {left = zero} e stop) = e
  Attempts-retry_loop (settled {left = suc left} e stop) = rw e (rw stop refl)
  Attempts-retry_loop (exhausted e more) = e
  Attempts-retry_loop (crashed {left = zero} e) = e
  Attempts-retry_loop (crashed {left = suc left} e) = rw e refl
  Attempts-retry_loop (interrupted e more pause) = rw e (rw more (rw pause refl))
  Attempts-retry_loop (sleep_crashed e more pause) = rw e (rw more (rw pause refl))
  Attempts-retry_loop (again e more pause rest) =
      rw e (rw more (rw pause (Attempts-retry_loop rest)))

  pub Attempts-le :
      {left delay n : ℕ} {s s' : State V W} {r : Flow (Option Err)}
      → Attempts left delay s n r s'
      → n ≤ left + 1
  Attempts-le (settled e stop) = omega arith
  Attempts-le (exhausted e more) = omega arith
  Attempts-le (crashed e) = omega arith
  Attempts-le (interrupted e more pause) = omega arith
  Attempts-le (sleep_crashed e more pause) = omega arith
  Attempts-le (again e more pause rest) = omega (arith, Attempts-le rest)

  abbrev SomeAttempts : ℕ → ℕ → State V W → Type 0
  SomeAttempts left delay s =
      (n : ℕ) × (r : Flow (Option Err)) × (s' : State V W) × Attempts left delay s n r s'

  after_pause :
      {left delay : ℕ} {s s' : State V W} {err : Option Err}
      → next ctx s ≡ (ret err, s')
      → retryable cfg err s'.ic.result ≡ true
      → ((t : State V W) → SomeAttempts left (cfg.grow delay) t)
      → (p : Flow (Option Err) × State V W) → back_off cfg ctx next delay s' ≡ p
      → SomeAttempts (suc left) delay s
  after_pause e more rest (ret (some stop), t) pause =
      (1, ret (some stop), t, interrupted e more pause)
  after_pause e more rest (ret none, t) pause =
      let (n, r, u, w) = rest t in (suc n, r, u, again e more pause w)
  after_pause e more rest (panic text, t) pause = (1, panic text, t, sleep_crashed e more pause)

  after_next :
      {left delay : ℕ} {s : State V W}
      → ((t : State V W) → SomeAttempts left (cfg.grow delay) t)
      → (p : Flow (Option Err) × State V W) → next ctx s ≡ p
      → SomeAttempts (suc left) delay s
  after_next {delay} rest (ret err, s') e = elim (Bool-cases (retryable cfg err s'.ic.result)) [
    | inl more ↦ after_pause e more rest (back_off cfg ctx next delay s') refl
    | inr stop ↦ (1, ret err, s', settled e stop)
  ]
  after_next rest (panic text, s') e = (1, panic text, s', crashed e)

  last_attempt :
      {delay : ℕ} {s : State V W} (p : Flow (Option Err) × State V W)
      → next ctx s ≡ p
      → SomeAttempts zero delay s
  last_attempt (ret err, s') e = elim (Bool-cases (retryable cfg err s'.ic.result)) [
    | inl more ↦ (1, ret err, s', exhausted e more)
    | inr stop ↦ (1, ret err, s', settled e stop)
  ]
  last_attempt (panic text, s') e = (1, panic text, s', crashed e)

  pub attempts_exist : (left delay : ℕ) (s : State V W) → SomeAttempts left delay s
  attempts_exist zero delay s = last_attempt (next ctx s) refl
  attempts_exist (suc left) delay s =
      after_next (λ t. attempts_exist left (cfg.grow delay) t) (next ctx s) refl

  -- Every run of the retry middleware is a list of at least one and at most `retries` + 1
  -- attempts: each but the last ended in an outcome that the configuration retries and was
  -- followed by a completed pause with the delay of that round, and the run ends as the last
  -- attempt does, or as the pause that was cut short.
  pub retry-Attempts :
      (s : State V W)
      → (n : ℕ) × Attempts cfg.retries cfg.initial_delay s n
          (retry cfg ctx next s).0
          (retry cfg ctx next s).1
        × (n ≤ cfg.retries + 1)
  unfolding retry
  retry-Attempts s =
      let (n, r, s', w) = attempts_exist cfg.retries cfg.initial_delay s in
      let e = Attempts-retry_loop w in (n, rw e w, Attempts-le w)

-- `float64` to `int64` conversion keeps a value that is below 2^63 - 1 below it.
pub record FloatLaws (floats : Floats) : Type 0 where
  pub to_int_below :
      (x : floats.Float)
      → floats.at_least x (floats.from_int max_int64) ≡ false
      → floats.to_int x ≤ max_int64

-- Where the conversion of a float below 2^63 - 1 gives an integer of at most that, a grown delay
-- is at most 2^63 - 1, so it stays an `int64`.
pub grow_delay-le :
    (floats : Floats) (laws : FloatLaws floats) (d : ℕ) (factor : floats.Float)
    → grow_delay floats d factor ≤ max_int64
unfolding grow_delay
grow_delay-le floats laws d factor =
    ground (arith, laws.to_int_below (floats.times (floats.from_int d) factor))
