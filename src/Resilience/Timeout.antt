-- ===== src/Resilience/Timeout.antt =====
-- resilience/timeout.go: a deadline around the next step. The contexts are parameters: one that
-- derives the context with the deadline, and whether that deadline has passed, and whether the
-- caller's own context has ended, in the world that the next step left.
use benzene_go.Prelude.{
  String, refl, inl, inr, Bool, true, false, not, Option, none, some, [], Bool-cases, ◌≡◌, ◌⊎◌,
  ◌&&◌, ◌∷◌, if◌then◌else◌,
}
use benzene_go.Flow.{Go, Err, ret, panic, ◌>>=◌}
use benzene_go.Status.{is_success, status_timeout}
use benzene_go.Result.{ResultInfo, erase, failed, errors_from_messages, fail, fail_with, timeout}
use benzene_go.Pipeline.{Ctx, State, Middleware, set_result}
use benzene_go.Resilience.{result_successful}

pub record Deadlines (C W : Type 0) : Type 0 where
  pub with_timeout : Ctx C → Ctx C
  pub parent_ended : Ctx C → W → Bool
  pub deadline_passed : Ctx C → W → Bool
  pub timeout_text : String

abbrev no_error : Option Err → Bool
no_error none = true
no_error (some err) = false

module _ {C V W : Type 0} (d : Deadlines C W) where
  unfoldable present_timeout : Go (State V W) (Option Err)
  unfolding timeout fail fail_with is_success
  present_timeout s = elim (timeout {A = Option V} (d.timeout_text ∷ [])) [
    | ret result ↦ (ret none, set_result (erase (λ v. v) result) s)
    | panic text ↦ (panic text, s)
  ]

  -- What follows the call of the next step.
  unfoldable after_deadline : Ctx C → Option Err → Go (State V W) (Option Err)
  unfolding present_timeout result_successful
  after_deadline ctx err s =
      if not (d.parent_ended ctx s.world) && d.deadline_passed (d.with_timeout ctx) s.world
      then (if no_error err && result_successful s.ic.result
          then (ret none, s)
          else present_timeout s)
      else (ret err, s)

  -- `Timeout`
  unfoldable pub with_deadline : Middleware C V W
  unfolding after_deadline
  with_deadline ctx next = next (d.with_timeout ctx) >>= after_deadline ctx

  abbrev timed_out : ResultInfo V
  timed_out = erase (λ v. v) (failed status_timeout (errors_from_messages (d.timeout_text ∷ [])))

  present_timeout-timed_out :
      (s : State V W) → present_timeout s ≡ (ret none, set_result timed_out s)
  unfolding present_timeout timeout fail fail_with is_success
  present_timeout-timed_out s = refl

  -- Once the deadline has passed under a caller that still waits, there is no error, and the
  -- invocation has a successful result that the next step left, or the status `timeout`.
  after_deadline-passed :
      (ctx : Ctx C) (err : Option Err) (s : State V W)
      → d.parent_ended ctx s.world ≡ false
      → d.deadline_passed (d.with_timeout ctx) s.world ≡ true
      → (s' : State V W) × (after_deadline ctx err s ≡ (ret none, s'))
        × (((s' ≡ s) × (err ≡ none) × (result_successful s.ic.result ≡ true))
            ⊎ ((result : ResultInfo V) × (s' ≡ set_result result s)
                × (result.result_status ≡ status_timeout)))
  unfolding after_deadline erase
  after_deadline-passed ctx (some err) s waits passed = (
    set_result timed_out s,
    rw waits (rw passed (present_timeout-timed_out s)),
    inr (timed_out, refl, refl),
  )
  after_deadline-passed ctx none s waits passed =
      elim (Bool-cases (result_successful s.ic.result)) [
        | inl good ↦ (s, rw waits (rw passed (rw good refl)), inl (refl, refl, good))
        | inr bad ↦ (
          set_result timed_out s,
          rw waits (rw passed (rw bad (present_timeout-timed_out s))),
          inr (timed_out, refl, refl),
        )
      ]

  -- With a cancelled caller, or in time, everything stays as the next step left it.
  after_deadline-in_time :
      (ctx : Ctx C) (err : Option Err) (s : State V W)
      → not (d.parent_ended ctx s.world) && d.deadline_passed (d.with_timeout ctx) s.world ≡ false
      → after_deadline ctx err s ≡ (ret err, s)
  unfolding after_deadline
  after_deadline-in_time ctx err s in_time = rw in_time refl
