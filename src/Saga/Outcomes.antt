-- ===== src/Saga/Outcomes.antt =====
-- The result of a run against the steps that the run leaves.
use benzene_go.Prelude.{
  ℕ, String, refl, sym, ap, subst, inl, inr, Bool, true, false, not, Option, some, List, [], arith,
  Bool-cases, length, length-append, ◌≡◌, ◌∙◌, ◌&&◌, ◌∷◌, ◌++◌,
}
use benzene_go.Saga.Steps.{Step, Shared, succeeded}
use benzene_go.Saga.Engine.{
  Outcome, outcome_rolled_back, outcome_partially_rolled_back, SagaResult, Stage, StateStore,
  RunOptions, in_state, publish_all, recorded, execute_all, all_succeeded, compensate_all, unwind,
  roll_back, failures_in, collect_failures, failed_result, succeeded_result, run_stages, run_once,
}
use mathlib.Core.List.{append-nil}
use benzene_go.Saga.Courses.{
  Executed, UndoneStage, Undone, execute_all-Executed, compensate_all-UndoneStage, unwind-Undone,
}
use benzene_go.Saga.Rollback.{
  fresh, settled, every, every_stage, is_empty, execute_all-fresh, compensate_all-Answers,
  is_empty-append, every_stage-append, unwind-Answers,
}

abbrev pub is_rolled_back : Outcome → Bool
is_rolled_back outcome_rolled_back = true
is_rolled_back _ = false

abbrev pub is_partial : Outcome → Bool
is_partial outcome_partially_rolled_back = true
is_partial _ = false

module _ {V W : Type 0} where
  abbrev pub not_succeeded : Step V W → Bool
  not_succeeded st = not (in_state succeeded st)

  module _ (store : Option (StateStore V W)) (saga_id : String) (attempt : ℕ) where
    -- The stages that a run has completed, each step executed and succeeded, each stage published
    -- and then recorded by its index.
    pub data Completed (s0 : Shared V W)
        : List (Stage V W) → List (Stage V W) → Shared V W → Type 0 where
      none_yet : Completed s0 [] [] s0
      one_more :
          (before completed : List (Stage V W)) (stage ran : Stage V W) (s s' : Shared V W)
          → Completed s0 before completed s
          → Executed stage s ran s'
          → every (in_state succeeded) ran ≡ true
          → Completed s0 (before ++ stage ∷ []) (completed ++ ran ∷ []) (
              recorded store
                (λ st. st.record_stage_completed saga_id attempt (length completed))
                (publish_all ran s'))

    -- How a run may end: every stage is completed; or a stage did not succeed, and was undone, and
    -- then the completed ones from the last to the first, the later ones are as they were, and the
    -- outcome and the list of failures say whether all is undone. The outcome is recorded at last.
    pub data Over (s0 : Shared V W) (original : List (Stage V W)) (r : SagaResult V W)
        (stages : List (Stage V W)) (final : Shared V W) : Type 0 where
      all_done :
          (s : Shared V W)
          → r ≡ succeeded_result
          → Completed s0 original stages s
          → every_stage (in_state succeeded) stages ≡ true
          → final ≡ recorded store (λ st. st.record_finished saga_id attempt r) s
          → Over s0 original r stages final
      stopped :
          (i : ℕ) (before completed undone untouched : List (Stage V W))
          (stage ran last : Stage V W) (s s1 s2 s3 : Shared V W)
          → original ≡ before ++ stage ∷ untouched
          → length before ≡ i
          → Completed s0 before completed s
          → Executed stage s ran s1
          → every (in_state succeeded) ran ≡ false
          → UndoneStage ran s1 last s2
          → Undone completed s2 undone s3
          → stages ≡ undone ++ last ∷ untouched
          → length undone ≡ i
          → r.failed_stage_index ≡ some i
          → every_stage not_succeeded (undone ++ last ∷ []) ≡ true
          → is_rolled_back r.outcome ≡ every_stage settled (undone ++ last ∷ [])
          → is_partial r.outcome ≡ not (every_stage settled (undone ++ last ∷ []))
          → is_empty r.compensation_failures ≡ every_stage settled (undone ++ last ∷ [])
          → final ≡ recorded store (λ st. st.record_finished saga_id attempt r) s3
          → Over s0 original r stages final

  collect_failures-last :
      (completed : List (Stage V W)) (stage : Stage V W)
      → is_empty (collect_failures completed stage)
        ≡ (is_empty (collect_failures completed []) && is_empty (failures_in stage))
  unfolding collect_failures failures_in
  collect_failures-last [] stage = refl
  collect_failures-last (first ∷ completed) stage =
      rw is_empty-append (ground (arith, collect_failures-last completed stage))

  every-fresh :
      (stage : Stage V W) → every (in_state succeeded) stage ≡ true → every fresh stage ≡ true
  unfolding every
  every-fresh [] h = refl
  every-fresh (st ∷ sts) h = ground (arith, every-fresh sts)

  every_stage-fresh :
      (stages : List (Stage V W))
      → every_stage (in_state succeeded) stages ≡ true
      → every_stage fresh stages ≡ true
  unfolding every_stage
  every_stage-fresh [] h = refl
  every_stage-fresh (stage ∷ stages) h = ground (arith, every_stage-fresh stages, every-fresh stage)

  all_succeeded-every : (stage : Stage V W) → all_succeeded stage ≡ every (in_state succeeded) stage
  unfolding all_succeeded every
  all_succeeded-every [] = refl
  all_succeeded-every (st ∷ sts) = ap (λ b. in_state succeeded st && b) (all_succeeded-every sts)

  append-middle :
      (a b : List (Stage V W)) (stage : Stage V W) → a ++ stage ∷ b ≡ (a ++ stage ∷ []) ++ b
  append-middle [] b stage = refl
  append-middle (x ∷ a) b stage = ap (λ l. x ∷ l) (append-middle a b stage)

  module _ (store : Option (StateStore V W)) (saga_id : String) (attempt : ℕ)
      (s0 : Shared V W) where
    -- What `rollBack` leaves, as one list of stages.
    roll_back-stopped :
        (original before completed untouched : List (Stage V W)) (stage ran : Stage V W)
        (s s1 : Shared V W)
        → original ≡ before ++ stage ∷ untouched
        → length before ≡ length completed
        → Completed store saga_id attempt s0 before completed s
        → Executed stage s ran s1
        → every_stage (in_state succeeded) completed ≡ true
        → every fresh ran ≡ true
        → every (in_state succeeded) ran ≡ false
        → let undone = roll_back completed ran s1 in
          let result = failed_result (length completed) undone.0.0.0 undone.0.0.1 undone.0.1 in
          Over store saga_id attempt s0 original result
            (undone.0.0.1 ++ undone.0.1 ∷ untouched)
            (recorded store (λ st. st.record_finished saga_id attempt result) undone.1)
    unfolding roll_back failed_result every_stage
    roll_back-stopped original before completed untouched stage ran s s1 split counted course
          executed done f bad =
        let undone = compensate_all ran s1 in
        let (settled_one, failed_one, over_one) = compensate_all-Answers ran s1 f in
        let (settled_all, failed_all, over_all, same) =
          unwind-Answers completed undone.1 (every_stage-fresh completed done) in
        let first = (unwind completed undone.1).0.1 in
        let last = undone.0.1 in
        let answer : every_stage settled (first ++ last ∷ [])
            ≡ (undone.0.0 && (unwind completed undone.1).0.0) =
          rw every_stage-append (ground arith) in
        stopped (length completed) before completed first untouched stage ran last s s1 undone.1 _
          split counted course executed bad (compensate_all-UndoneStage ran s1)
          (unwind-Undone completed undone.1) refl (omega (arith, same)) refl
          (rw every_stage-append (ground arith)) (rw answer (ground arith))
          (rw answer (ground arith)) (rw (answer, collect_failures-last) (ground arith)) refl

    run_stages-Over :
        (original before completed stages : List (Stage V W)) (s : Shared V W)
        → original ≡ before ++ stages
        → length before ≡ length completed
        → Completed store saga_id attempt s0 before completed s
        → every_stage (in_state succeeded) completed ≡ true
        → let ran = run_stages store saga_id attempt completed stages s in
          Over store saga_id attempt s0 original ran.0.0 ran.0.1 ran.1
    unfolding run_stages
    run_stages-Over original before completed [] s split counted course done =
        all_done s refl
          (subst (λ l. Completed store saga_id attempt s0 l completed s)
            (sym (split ∙ append-nil before)) course)
          done refl
    run_stages-Over original before completed (stage ∷ stages) s split counted course done =
        let ran = execute_all stage s in
        let executed = execute_all-Executed stage s in
        elim (Bool-cases (all_succeeded ran.0)) [
          | inl good ↦ rw good (
              run_stages-Over original (before ++ stage ∷ []) (completed ++ ran.0 ∷ []) stages _
                (split ∙ append-middle before stages stage)
                (rw (length-append, length-append) (omega (arith, counted)))
                (one_more before completed stage ran.0 s ran.1 course executed
                  (sym (all_succeeded-every ran.0) ∙ good))
                (unfold every_stage in
                  rw every_stage-append (ground (arith, all_succeeded-every ran.0))))
          | inr bad ↦ rw bad (
              roll_back-stopped original before completed stages stage ran.0 s ran.1 split counted
                course executed done (execute_all-fresh stage s)
                (sym (all_succeeded-every ran.0) ∙ bad))
        ]

  -- The state in which the first stage starts: an empty context, and the start recorded.
  abbrev pub started : RunOptions V W → ℕ → String → List (Stage V W) → W → Shared V W
  started opts attempt saga_id stages w =
      recorded opts.state_store
        (λ st. st.record_started (record {
          saga_id = saga_id;
          name = opts.run_name;
          attempt = attempt;
          stage_count = length stages;
        }))
        (record { items = []; world = w })

  -- One run of a saga, whatever its steps do, ends in one of two ways. Either the result is a
  -- success: every step of every stage of the saga ran its forward action once, in order, and is
  -- left succeeded, and each stage was published and recorded before the next. Or the stages
  -- before the one whose index the result has did so, and in that one every step ran and not all
  -- succeeded: then each of its steps, and after them those of the earlier stages from the last to
  -- the first, was compensated if it had succeeded, no step of them is left succeeded, and the
  -- later stages are as they were; the outcome is rolled back if every step of those stages is
  -- failed or rolled back, partially rolled back if not, and the list of compensation failures is
  -- empty in the first case only. The start and the result are recorded, first and last.
  pub run_once-Over :
      (opts : RunOptions V W) (attempt : ℕ) (saga_id : String) (stages : List (Stage V W)) (w : W)
      → let ran = run_once opts attempt saga_id stages w in
        Over opts.state_store saga_id attempt
          (started opts attempt saga_id stages w)
          stages
          ran.0.0
          ran.0.1
          ran.1
  unfolding run_once every_stage
  run_once-Over opts attempt saga_id stages w =
      run_stages-Over opts.state_store saga_id attempt (started opts attempt saga_id stages w)
        stages [] [] stages _ refl refl none_yet refl
