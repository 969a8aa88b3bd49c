-- ===== src/Saga/Retries.antt =====
-- saga/saga.go, `RunWith`: a run that is tried again after a clean rollback, and how often.
use benzene_go.Prelude.{
  ℕ, zero, suc, String, refl, inl, inr, true, false, Option, none, some, List, arith, ltb,
  Bool-cases, is_some, ◌+◌, ◌-◌, ◌≤◌, ◌<◌, ◌≡◌, ◌&&◌, if◌then◌else◌, ◌==◌, string_eq, nat_eq,
}
use benzene_go.Saga.Engine.{SagaResult, Stage, RetryPolicy, RunOptions, run_once}
use benzene_go.Saga.Outcomes.{is_rolled_back}

-- `maxAttempts`, and the default of a missing policy
unfoldable pub max_attempts : {W : Type 0} → Option (RetryPolicy W) → ℕ
max_attempts none = 1
max_attempts (some policy) = if ltb policy.max_attempts 1 then 1 else policy.max_attempts

unfoldable pub first_delay : {W : Type 0} → Option (RetryPolicy W) → ℕ
first_delay none = 0
first_delay (some policy) = policy.initial_delay

-- What stands between two attempts: the new delay, and the world after the wait.
unfoldable pub wait : {W : Type 0} → Option (RetryPolicy W) → ℕ → W → ℕ × W
wait none delay w = (delay, w)
wait (some policy) delay w =
    if ltb 0 delay then (policy.grow delay, policy.sleep delay w) else (delay, w)

max_attempts-pos : {W : Type 0} (policy : Option (RetryPolicy W)) → 0 < max_attempts policy
unfolding max_attempts
max_attempts-pos none = omega arith
max_attempts-pos (some policy) = ground arith

-- A result, the steps, and the world, as an attempt leaves them.
abbrev pub Left : Type 0 → Type 0 → Type 0
Left V W = SagaResult V W × List (Stage V W) × W

module _ {V W : Type 0} where
  unfoldable pub attempt_once : RunOptions V W → ℕ → String → List (Stage V W) → W → Left V W
  attempt_once opts attempt saga_id stages w =
      let ((result, stages'), s) = run_once opts attempt saga_id stages w in
      (result, stages', s.world)

  -- The loop of `RunWith`, with `left` attempts after this one.
  unfoldable pub run_attempts :
      RunOptions V W → String → ℕ → ℕ → ℕ → List (Stage V W) → W → Left V W
  unfolding attempt_once wait
  run_attempts opts saga_id zero attempt delay stages w = attempt_once opts attempt saga_id stages w
  run_attempts opts saga_id (suc left) attempt delay stages w =
      let (result, stages', w1) = attempt_once opts attempt saga_id stages w in
      let (delay', w2) = wait opts.retry_policy delay w1 in
      let again = run_attempts opts saga_id left (attempt + 1) delay' stages' w2 in
      if is_rolled_back result.outcome then again else (result, stages', w1)

  -- The default name, and the id: `new_id` is `newSagaID`, the text of random bytes.
  abbrev pub named : RunOptions V W → RunOptions V W
  named opts = record opts { run_name = if opts.run_name == "" then "saga" else opts.run_name }

  abbrev pub identified : (W → String × W) → RunOptions V W → W → String × W
  identified new_id opts w =
      if opts.run_saga_id == "" && is_some opts.state_store then new_id w else (opts.run_saga_id, w)

  -- `RunWith`
  unfoldable pub run_with : (W → String × W) → RunOptions V W → List (Stage V W) → W → Left V W
  unfolding run_attempts max_attempts first_delay
  run_with new_id opts stages w =
      let (saga_id, w1) = identified new_id opts w in
      run_attempts (named opts) saga_id (max_attempts opts.retry_policy - 1) 1
        (first_delay opts.retry_policy) stages w1

  -- `Run`: one attempt, with no store and no policy
  unfoldable pub run_plain : List (Stage V W) → W → Left V W
  unfolding attempt_once
  run_plain stages w =
      attempt_once
        (record { run_name = "saga"; run_saga_id = ""; state_store = none; retry_policy = none }) 1
        "" stages w

  module _ (opts : RunOptions V W) (saga_id : String) where
    -- `Tries left attempt delay stages w n out`: from attempt number `attempt`, `n` attempts are made
    -- and the last leaves `out`; each but the last was cleanly rolled back.
    pub data Tries : ℕ → ℕ → ℕ → List (Stage V W) → W → ℕ → Left V W → Type 0 where
      ended :
          {left attempt delay : ℕ} {stages stages' : List (Stage V W)} {w w' : W}
          {r : SagaResult V W}
          → attempt_once opts attempt saga_id stages w ≡ (r, stages', w')
          → is_rolled_back r.outcome ≡ false
          → Tries left attempt delay stages w 1 (r, stages', w')
      used_up :
          {attempt delay : ℕ} {stages stages' : List (Stage V W)} {w w' : W} {r : SagaResult V W}
          → attempt_once opts attempt saga_id stages w ≡ (r, stages', w')
          → is_rolled_back r.outcome ≡ true
          → Tries zero attempt delay stages w 1 (r, stages', w')
      retried :
          {left attempt delay n : ℕ} {stages stages' : List (Stage V W)} {w w' : W}
          {r : SagaResult V W} {out : Left V W}
          → attempt_once opts attempt saga_id stages w ≡ (r, stages', w')
          → is_rolled_back r.outcome ≡ true
          → Tries left
              (attempt + 1)
              (wait opts.retry_policy delay w').0
              stages'
              (wait opts.retry_policy delay w').1
              n
              out
          → Tries (suc left) attempt delay stages w (suc n) out

    Tries-le :
        {left attempt delay n : ℕ} {stages : List (Stage V W)} {w : W} {out : Left V W}
        → Tries left attempt delay stages w n out
        → n ≤ left + 1
    Tries-le (ended e stop) = omega arith
    Tries-le (used_up e more) = omega arith
    Tries-le (retried e more rest) = omega (arith, Tries-le rest)

    abbrev SomeTries : ℕ → ℕ → ℕ → List (Stage V W) → W → Type 0
    SomeTries left attempt delay stages w =
        (n : ℕ) × Tries left attempt delay stages w n
          (run_attempts opts saga_id left attempt delay stages w)

    run_attempts-Tries :
        (left attempt delay : ℕ) (stages : List (Stage V W)) (w : W)
        → SomeTries left attempt delay stages w
    unfolding run_attempts
    run_attempts-Tries zero attempt delay stages w =
        elim (Bool-cases (is_rolled_back (attempt_once opts attempt saga_id stages w).0.outcome)) [
          | inl more ↦ (1, used_up refl more)
          | inr stop ↦ (1, ended refl stop)
        ]
    run_attempts-Tries (suc left) attempt delay stages w =
        let ran = attempt_once opts attempt saga_id stages w in
        let paused = wait opts.retry_policy delay ran.2 in
        elim (Bool-cases (is_rolled_back ran.0.outcome)) [
          | inl more ↦
              let (n, rest) = run_attempts-Tries left (attempt + 1) paused.0 ran.1 paused.1 in
              (suc n, rw more (retried refl more rest))
          | inr stop ↦ (1, rw stop (ended refl stop))
        ]

  -- `RunWith` makes at least one attempt and at most as many as its policy allows (one without a
  -- policy), numbered from 1: each but the last was cleanly rolled back, the next starts from the
  -- steps and the world that it left, after the wait, and what the last attempt leaves is
  -- returned. Where attempts were left over, the last was not rolled back cleanly.
  pub run_with-Tries :
      (new_id : W → String × W) (opts : RunOptions V W) (stages : List (Stage V W)) (w : W)
      → (n : ℕ) × Tries
          (named opts)
          (identified new_id opts w).0
          (max_attempts opts.retry_policy - 1)
          1
          (first_delay opts.retry_policy)
          stages
          (identified new_id opts w).1
          n
          (run_with new_id opts stages w)
        × (n ≤ max_attempts opts.retry_policy)
  unfolding run_with
  run_with-Tries new_id opts stages w =
      let (n, tries) =
        run_attempts-Tries (named opts) (identified new_id opts w).0
          (max_attempts opts.retry_policy - 1) 1 (first_delay opts.retry_policy) stages
          (identified new_id opts w).1 in
      (
        n,
        tries,
        omega (
          arith,
          Tries-le (named opts) (identified new_id opts w).0 tries,
          max_attempts-pos opts.retry_policy,
        ),
      )
