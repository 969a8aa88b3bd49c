-- ===== src/Saga/Engine.antt =====
-- saga/saga.go: stages, one run of a saga, and runs that are tried again. The goroutines of a stage
-- touch their own step each, and share only the world; they are run here in the order of the list.
-- A state store does not panic and returns nothing, so it is a function on the world.
use benzene_go.Prelude.{
  ℕ, String, Bool, true, Option, none, some, List, [], length, ◌&&◌, ◌∷◌, ◌++◌, if◌then◌else◌,
}
use benzene_go.Result.{Result}
use benzene_go.Saga.Steps.{
  Step, StepState, Shared, succeeded, failing, compensation_failed, step_state_beq, execute,
  publish, compensate,
}

pub data Outcome : Type 0 where
  outcome_succeeded outcome_rolled_back outcome_partially_rolled_back : Outcome

-- saga.Result; `failed_stage_index` is `none` for the source's -1.
pub record SagaResult (V W : Type 0) : Type 0 where
  pub outcome : Outcome
  pub failed_stage_index : Option ℕ
  pub failure : Option (Result V)
  pub failure_err : Option String
  pub compensation_failures : List (Step V W)

abbrev pub Stage : Type 0 → Type 0 → Type 0
Stage V W = List (Step V W)

pub record RunInfo : Type 0 where
  pub saga_id : String
  pub name : String
  pub attempt : ℕ
  pub stage_count : ℕ

pub record StateStore (V W : Type 0) : Type 0 where
  pub record_started : RunInfo → W → W
  pub record_stage_completed : String → ℕ → ℕ → W → W
  pub record_finished : String → ℕ → SagaResult V W → W → W

-- `grow` is the product with the back-off factor, and `sleep` the timed wait.
pub record RetryPolicy (W : Type 0) : Type 0 where
  pub max_attempts : ℕ
  pub initial_delay : ℕ
  pub grow : ℕ → ℕ
  pub sleep : ℕ → W → W

pub record RunOptions (V W : Type 0) : Type 0 where
  pub run_name : String
  pub run_saga_id : String
  pub state_store : Option (StateStore V W)
  pub retry_policy : Option (RetryPolicy W)

module _ {V W : Type 0} where
  abbrev pub in_state : StepState → Step V W → Bool
  in_state q st = step_state_beq st.state q

  -- `Stage.execute`: every step runs, whether or not another fails.
  unfoldable pub execute_all : Stage V W → Shared V W → Stage V W × Shared V W
  unfolding execute
  execute_all [] s = ([], s)
  execute_all (st ∷ sts) s =
      let (st', s1) = execute st s in let (sts', s2) = execute_all sts s1 in (st' ∷ sts', s2)

  unfoldable pub all_succeeded : Stage V W → Bool
  all_succeeded [] = true
  all_succeeded (st ∷ sts) = in_state succeeded st && all_succeeded sts

  -- `Stage.publish`
  unfoldable pub publish_all : Stage V W → Shared V W → Shared V W
  unfolding publish
  publish_all [] s = s
  publish_all (st ∷ sts) s = publish_all sts (publish st s)

  -- `Stage.compensate`: every step is compensated, whether or not another fails to be.
  unfoldable pub compensate_all : Stage V W → Shared V W → (Bool × Stage V W) × Shared V W
  unfolding compensate
  compensate_all [] s = ((true, []), s)
  compensate_all (st ∷ sts) s =
      let ((clean, st'), s1) = compensate st s in
      let ((all_clean, sts'), s2) = compensate_all sts s1 in ((clean && all_clean, st' ∷ sts'), s2)

  -- The loop of `rollBack` over the completed stages, the last first.
  unfoldable pub unwind : List (Stage V W) → Shared V W → (Bool × List (Stage V W)) × Shared V W
  unfolding compensate_all
  unwind [] s = ((true, []), s)
  unwind (stage ∷ stages) s =
      let ((later_clean, stages'), s1) = unwind stages s in
      let ((clean, stage'), s2) = compensate_all stage s1 in
      ((later_clean && clean, stage' ∷ stages'), s2)

  -- `rollBack`: the failed stage, then the completed ones.
  unfoldable pub roll_back :
      List (Stage V W)
      → Stage V W
      → Shared V W
      → ((Bool × List (Stage V W)) × Stage V W) × Shared V W
  unfolding unwind compensate_all
  roll_back completed stage s =
      let ((stage_clean, stage'), s1) = compensate_all stage s in
      let ((clean, completed'), s2) = unwind completed s1 in
      (((stage_clean && clean, completed'), stage'), s2)

  -- `collectCompensationFailures`
  unfoldable pub failures_in : Stage V W → List (Step V W)
  failures_in [] = []
  failures_in (st ∷ sts) =
      let rest = failures_in sts in if in_state compensation_failed st then st ∷ rest else rest

  unfoldable pub collect_failures : List (Stage V W) → Stage V W → List (Step V W)
  unfolding failures_in
  collect_failures [] stage = failures_in stage
  collect_failures (first ∷ completed) stage = failures_in first ++ collect_failures completed stage

  -- The first failed step of a stage.
  unfoldable pub first_failed : Stage V W → Option (Step V W)
  first_failed [] = none
  first_failed (st ∷ sts) =
      let rest = first_failed sts in if in_state failing st then some st else rest

  -- What a run reports of a stage that failed, after the rollback.
  unfoldable pub failed_result : ℕ → Bool → List (Stage V W) → Stage V W → SagaResult V W
  unfolding collect_failures first_failed
  failed_result i clean completed stage = record {
    outcome = if clean then outcome_rolled_back else outcome_partially_rolled_back;
    failed_stage_index = some i;
    failure = elim (first_failed stage) [ none ↦ none | some st ↦ st.result ];
    failure_err = elim (first_failed stage) [ none ↦ none | some st ↦ st.err ];
    compensation_failures = collect_failures completed stage;
  }

  abbrev pub succeeded_result : SagaResult V W
  succeeded_result = record {
    outcome = outcome_succeeded;
    failed_stage_index = none;
    failure = none;
    failure_err = none;
    compensation_failures = [];
  }

  -- `if store != nil { store.… }`
  abbrev pub recorded : Option (StateStore V W) → (StateStore V W → W → W) → Shared V W → Shared V W
  recorded none call s = s
  recorded (some store) call s = record s { world = call store s.world }

  module _ (store : Option (StateStore V W)) (saga_id : String) (attempt : ℕ) where
    -- The rest of a run, after the stages `completed`, with the steps as the run leaves them.
    unfoldable pub run_stages :
        List (Stage V W)
        → List (Stage V W)
        → Shared V W
        → (SagaResult V W × List (Stage V W)) × Shared V W
    unfolding execute_all all_succeeded publish_all roll_back failed_result
    run_stages completed [] s = (
      (succeeded_result, completed),
      recorded store (λ st. st.record_finished saga_id attempt succeeded_result) s,
    )
    run_stages completed (stage ∷ stages) s =
        let (stage', s1) = execute_all stage s in
        let rest = run_stages (completed ++ stage' ∷ []) stages (
          recorded store (λ st. st.record_stage_completed saga_id attempt (length completed))
            (publish_all stage' s1)) in
        let (((clean, completed'), stage''), s2) = roll_back completed stage' s1 in
        let result = failed_result (length completed) clean completed' stage'' in
        if all_succeeded stage' then rest else (
          (result, completed' ++ stage'' ∷ stages),
          recorded store (λ st. st.record_finished saga_id attempt result) s2,
        )

  -- `runOnce`, with a new context for every run
  unfoldable pub run_once :
      RunOptions V W
      → ℕ
      → String
      → List (Stage V W)
      → W
      → (SagaResult V W × List (Stage V W)) × Shared V W
  unfolding run_stages
  run_once opts attempt saga_id stages w =
      let info : RunInfo = record {
        saga_id = saga_id;
        name = opts.run_name;
        attempt = attempt;
        stage_count = length stages;
      } in
      run_stages opts.state_store saga_id attempt [] stages (
        recorded opts.state_store (λ st. st.record_started info) (record { items = []; world = w }))
