-- ===== src/Saga/Rollback.antt =====
-- How a run ends: every effect stands, or every one is undone, or the result names what is not.
use benzene_go.Prelude.{
  refl, inl, inr, Bool, true, false, not, Option, none, some, List, [], arith, Bool-cases, length,
  ◌≡◌, ◌&&◌, ◌||◌, ◌∷◌, ◌++◌,
}
use benzene_go.Flow.{Flow, ret, panic, Go}
use benzene_go.Result.{Result, is_successful}
use benzene_go.Saga.Steps.{
  Step, Shared, succeeded, failing, rolled_back, compensation_failed, execute, executed, compensate,
  compensated, undo,
}
use benzene_go.Saga.Engine.{
  Stage, in_state, execute_all, compensate_all, unwind, failures_in, collect_failures,
}

module _ {V W : Type 0} where
  -- A step that has run: it succeeded or failed.
  abbrev pub fresh : Step V W → Bool
  fresh st = in_state succeeded st || in_state failing st

  -- A step with nothing left to undo.
  abbrev pub settled : Step V W → Bool
  settled st = in_state failing st || in_state rolled_back st

  unfoldable pub every : (Step V W → Bool) → Stage V W → Bool
  every p [] = true
  every p (st ∷ sts) = p st && every p sts

  unfoldable pub every_stage : (Step V W → Bool) → List (Stage V W) → Bool
  every_stage p [] = true
  every_stage p (stage ∷ stages) = every p stage && every_stage p stages

  abbrev pub is_empty : List (Step V W) → Bool
  is_empty [] = true
  is_empty (_ ∷ _) = false

  executed-fresh : (o : Flow (Result V)) (st : Step V W) → fresh (executed o st) ≡ true
  executed-fresh (ret r) st = ground arith
  executed-fresh (panic text) st = refl

  execute-fresh : (st : Step V W) (s : Shared V W) → fresh (execute st s).0 ≡ true
  unfolding execute
  execute-fresh st s = executed-fresh (st.forward s).0 st

  pub execute_all-fresh :
      (stage : Stage V W) (s : Shared V W) → every fresh (execute_all stage s).0 ≡ true
  unfolding execute_all every
  execute_all-fresh [] s = refl
  execute_all-fresh (st ∷ sts) s = rw (execute-fresh st s) (execute_all-fresh sts (execute st s).1)

  -- What a compensation's answer says of the step.
  abbrev Answers : Bool → Step V W → Type 0
  Answers clean st =
      (settled st ≡ clean)
      × (in_state compensation_failed st ≡ not clean)
      × (in_state succeeded st ≡ false)

  compensated-Answers :
      (o : Flow (Result (Unit {0}))) (st : Step V W)
      → Answers (compensated o st).0 (compensated o st).1
  compensated-Answers (ret r) st = elim (Bool-cases (is_successful r)) [
    | inl good ↦ rw good (refl, refl, refl)
    | inr bad ↦ rw bad (refl, refl, refl)
  ]
  compensated-Answers (panic text) st = (refl, refl, refl)

  undo-Answers :
      (fn : Option (V → Go (Shared V W) (Result (Unit {0})))) (st : Step V W) (s : Shared V W)
      → Answers (undo fn st s).0.0 (undo fn st s).0.1
  unfolding undo
  undo-Answers none st s = (refl, refl, refl)
  undo-Answers (some fn) st s = compensated-Answers _ st

  compensate-Answers :
      (st : Step V W) (s : Shared V W)
      → fresh st ≡ true
      → Answers (compensate st s).0.0 (compensate st s).0.1
  unfolding compensate
  compensate-Answers st s f = elim (Bool-cases (in_state succeeded st)) [
    | inl good ↦ rw good (undo-Answers st.compensate_fn st s)
    | inr bad ↦ rw bad (ground arith)
  ]

  -- The same for a stage, and for the completed stages.
  pub compensate_all-Answers :
      (stage : Stage V W) (s : Shared V W)
      → every fresh stage ≡ true
      → (every settled (compensate_all stage s).0.1 ≡ (compensate_all stage s).0.0)
        × (is_empty (failures_in (compensate_all stage s).0.1) ≡ (compensate_all stage s).0.0)
        × (every (λ st. not (in_state succeeded st)) (compensate_all stage s).0.1 ≡ true)
  unfolding compensate_all every failures_in
  compensate_all-Answers [] s f = (refl, refl, refl)
  compensate_all-Answers (st ∷ sts) s f =
      let (settled_st, failed_st, over_st) = compensate-Answers st s (ground arith) in
      let (settled_sts, failed_sts, over_sts) =
        compensate_all-Answers sts (compensate st s).1 (ground arith) in
      (ground arith, ground arith, ground arith)

  pub is_empty-append : (a b : List (Step V W)) → is_empty (a ++ b) ≡ (is_empty a && is_empty b)
  is_empty-append [] b = refl
  is_empty-append (st ∷ a) b = refl

  pub every_stage-append :
      (p : Step V W → Bool) (a b : List (Stage V W))
      → every_stage p (a ++ b) ≡ (every_stage p a && every_stage p b)
  unfolding every_stage
  every_stage-append p [] b = refl
  every_stage-append p (stage ∷ a) b = ground (arith, every_stage-append p a b)

  pub unwind-Answers :
      (stages : List (Stage V W)) (s : Shared V W)
      → every_stage fresh stages ≡ true
      → (every_stage settled (unwind stages s).0.1 ≡ (unwind stages s).0.0)
        × (is_empty (collect_failures (unwind stages s).0.1 []) ≡ (unwind stages s).0.0)
        × (every_stage (λ st. not (in_state succeeded st)) (unwind stages s).0.1 ≡ true)
        × (length (unwind stages s).0.1 ≡ length stages)
  unfolding unwind every_stage collect_failures failures_in
  unwind-Answers [] s f = (refl, refl, refl, refl)
  unwind-Answers (stage ∷ stages) s f =
      let (settled_later, failed_later, over_later, same) =
        unwind-Answers stages s (ground arith) in
      let (settled_one, failed_one, over_one) =
        compensate_all-Answers stage (unwind stages s).1 (ground arith) in
      (ground arith, rw is_empty-append (ground arith), ground arith, ground arith)
