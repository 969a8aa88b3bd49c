-- ===== src/Resilience/Fallback/Defaults.antt =====
-- When the fallback with its default options steps in.
use benzene_go.Prelude.{
  refl, inl, inr, Bool, Option, none, some, Bool-cases, ◌≡◌, ◌||◌, if◌then◌else◌,
}
use benzene_go.Flow.{Err, Flow, ret, panic, is_canceled, is_deadline_exceeded}
use benzene_go.Result.{ResultInfo}
use benzene_go.Pipeline.{Ctx, State, Next}
use benzene_go.Resilience.{result_successful, unsuccessful, default_on_error}
use benzene_go.Resilience.Fallback.{default_config, FallbackFunc, after_attempt, fallback}

-- The ways an attempt may end that are kept: cancelled, out of time, or with a successful result.
abbrev stands : {V : Type 0} → Option Err → Option (ResultInfo V) → Bool
stands none result = result_successful result
stands (some err) result = is_canceled err || is_deadline_exceeded err

module _ {C V W : Type 0} (substitute : FallbackFunc C V W) (ctx : Ctx C) where
  -- What is left after an attempt that returned.
  abbrev resumed : Option Err → State V W → Flow (Option Err) × State V W
  resumed err s = if stands err s.ic.result then (ret err, s) else substitute ctx err s

  after_attempt-resumed :
      (err : Option Err) (s : State V W)
      → after_attempt default_config substitute ctx err s.ic.result s ≡ resumed err s
  unfolding after_attempt default_config default_on_error unsuccessful
  after_attempt-resumed none s = elim (Bool-cases (result_successful s.ic.result)) [
    | inl good ↦ rw good refl
    | inr bad ↦ rw bad refl
  ]
  after_attempt-resumed (some err) s =
      elim (Bool-cases (is_canceled err || is_deadline_exceeded err)) [
        | inl ended ↦ rw ended refl
        | inr failed ↦ rw failed refl
      ]

  -- The same for an attempt that may panic.
  abbrev concluded : Flow (Option Err) × State V W → Flow (Option Err) × State V W
  concluded (ret err, s) = resumed err s
  concluded (panic text, s) = (panic text, s)

  -- With the default options, the fallback calls the next step once. A panic passes; an error that
  -- wraps a cancellation or a missed deadline, and a successful result without an error, are kept
  -- as they are; after any other error, and after a result that is missing or not successful, the
  -- substitute runs once, with that error or none, in the state that the next step left, and its
  -- outcome is the outcome.
  fallback-concluded :
      (next : Next C V W) (s : State V W)
      → fallback default_config substitute ctx next s ≡ concluded (next ctx s)
  unfolding fallback
  fallback-concluded next s = go (next ctx s) refl
    where
      go :
          (p : Flow (Option Err) × State V W)
          → next ctx s ≡ p
          → fallback default_config substitute ctx next s ≡ concluded p
      go (ret err, t) e = rw (e, fallback) (after_attempt-resumed err t)
      go (panic text, t) e = rw (e, fallback) refl
