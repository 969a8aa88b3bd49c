-- ===== src/Saga/Courses.antt =====
-- What the steps of a saga go through in a run, by their own actions: what each was asked to do, in
-- which order, and what its answer made of it.
use benzene_go.Prelude.{
  String, refl, inl, inr, true, false, Option, none, some, List, [], Bool-cases, ◌≡◌, ◌∷◌,
  if◌then◌else◌,
}
use benzene_go.Flow.{Flow, Go, ret, panic}
use benzene_go.Result.{Result, is_successful}
use benzene_go.Saga.Steps.{
  Step, StepState, Shared, succeeded, failing, rolled_back, compensation_failed, payload, execute,
  executed, compensate, compensated, undo,
}
use benzene_go.Saga.Engine.{Stage, in_state, execute_all, compensate_all, unwind}

module _ {V W : Type 0} where
  -- It is the same step, with another state.
  pub record IsStep (original st : Step V W) : Type 0 where
    pub same_type : st.type_name ≡ original.type_name
    pub same_key : st.key ≡ original.key
    pub same_forward : st.forward ≡ original.forward
    pub same_compensate : st.compensate_fn ≡ original.compensate_fn

  -- Every step of a stage ran its forward action once, in order, and is in the state of its answer.
  pub data Executed : Stage V W → Shared V W → Stage V W → Shared V W → Type 0 where
    no_step : (s : Shared V W) → Executed [] s [] s
    answered :
        (st st' : Step V W) (sts sts' : Stage V W) (s s' s'' : Shared V W) (r : Result V)
        → st.forward s ≡ (ret r, s')
        → IsStep st st'
        → st'.result ≡ some r
        → st'.err ≡ none
        → st'.state ≡ (if is_successful r then succeeded else failing)
        → Executed sts s' sts' s''
        → Executed (st ∷ sts) s (st' ∷ sts') s''
    broken :
        (st st' : Step V W) (sts sts' : Stage V W) (s s' s'' : Shared V W) (text : String)
        → st.forward s ≡ (panic text, s')
        → IsStep st st'
        → st'.state ≡ failing
        → Executed sts s' sts' s''
        → Executed (st ∷ sts) s (st' ∷ sts') s''

  -- What became of one step in a rollback: untouched unless it had succeeded; and else rolled back
  -- if it has no compensation or its compensation succeeded on the step's payload.
  pub data UndoneStep (st : Step V W) (s : Shared V W) : Step V W → Shared V W → Type 0 where
    untouched : in_state succeeded st ≡ false → UndoneStep st s st s
    without :
        (st' : Step V W)
        → in_state succeeded st ≡ true
        → st.compensate_fn ≡ none
        → IsStep st st'
        → st'.state ≡ rolled_back
        → UndoneStep st s st' s
    compensation_answered :
        (st' : Step V W) (s' : Shared V W) (r : Result (Unit {0}))
        (fn : V → Go (Shared V W) (Result (Unit {0})))
        → in_state succeeded st ≡ true
        → st.compensate_fn ≡ some fn
        → fn (payload st) s ≡ (ret r, s')
        → IsStep st st'
        → st'.state ≡ (if is_successful r then rolled_back else compensation_failed)
        → UndoneStep st s st' s'
    compensation_broken :
        (st' : Step V W) (s' : Shared V W) (text : String)
        (fn : V → Go (Shared V W) (Result (Unit {0})))
        → in_state succeeded st ≡ true
        → st.compensate_fn ≡ some fn
        → fn (payload st) s ≡ (panic text, s')
        → IsStep st st'
        → st'.state ≡ compensation_failed
        → UndoneStep st s st' s'

  -- The steps of a stage in order, and the stages from the last to the first.
  pub data UndoneStage : Stage V W → Shared V W → Stage V W → Shared V W → Type 0 where
    no_step_undone : (s : Shared V W) → UndoneStage [] s [] s
    step_undone :
        (st st' : Step V W) (sts sts' : Stage V W) (s s' s'' : Shared V W)
        → UndoneStep st s st' s'
        → UndoneStage sts s' sts' s''
        → UndoneStage (st ∷ sts) s (st' ∷ sts') s''

  pub data Undone : List (Stage V W) → Shared V W → List (Stage V W) → Shared V W → Type 0 where
    no_stage_undone : (s : Shared V W) → Undone [] s [] s
    stage_undone :
        (stage stage' : Stage V W) (stages stages' : List (Stage V W)) (s s' s'' : Shared V W)
        → Undone stages s stages' s'
        → UndoneStage stage s' stage' s''
        → Undone (stage ∷ stages) s (stage' ∷ stages') s''

  is_step :
      (st : Step V W) (state : StepState) (result : Option (Result V)) (err : Option String)
      → IsStep st (record st { state = state; result = result; err = err })
  is_step st state result err = record {
    same_type = refl;
    same_key = refl;
    same_forward = refl;
    same_compensate = refl;
  }

  -- The first step of a stage, and then the others.
  one_Executed :
      (st : Step V W) (sts sts' : Stage V W) (s s'' : Shared V W) (p : Flow (Result V) × Shared V W)
      → st.forward s ≡ p
      → Executed sts p.1 sts' s''
      → Executed (st ∷ sts) s (executed p.0 st ∷ sts') s''
  one_Executed st sts sts' s s'' (ret r, s') e rest =
      answered st (executed (ret r) st) sts sts' s s' s'' r e (is_step st _ _ _) refl refl refl rest
  one_Executed st sts sts' s s'' (panic text, s') e rest =
      broken st (executed (panic text) st) sts sts' s s' s'' text e (is_step st _ _ _) refl rest

  pub execute_all-Executed :
      (stage : Stage V W) (s : Shared V W)
      → Executed stage s (execute_all stage s).0 (execute_all stage s).1
  unfolding execute_all execute
  execute_all-Executed [] s = no_step s
  execute_all-Executed (st ∷ sts) s =
      one_Executed st sts _ s _ (st.forward s) refl (execute_all-Executed sts (st.forward s).1)

  undo-UndoneStep :
      (st : Step V W) (s : Shared V W)
      → in_state succeeded st ≡ true
      → UndoneStep st s (undo st.compensate_fn st s).0.1 (undo st.compensate_fn st s).1
  unfolding undo
  undo-UndoneStep st s good = go st.compensate_fn refl
    where
      from_answer :
          (fn : V → Go (Shared V W) (Result (Unit {0}))) (p : Flow (Result (Unit {0})) × Shared V W)
          → st.compensate_fn ≡ some fn
          → fn (payload st) s ≡ p
          → UndoneStep st s (compensated p.0 st).1 p.1
      from_answer fn (ret r, s') h e = elim (Bool-cases (is_successful r)) [
        | inl fine ↦ rw fine (
            compensation_answered (record st { state = rolled_back }) s' r fn good h e
              (is_step st _ _ _) (rw fine refl))
        | inr bad ↦ rw bad (
            compensation_answered (record st { state = compensation_failed }) s' r fn good h e
              (is_step st _ _ _) (rw bad refl))
      ]
      from_answer fn (panic text, s') h e =
          compensation_broken (compensated (panic text) st).1 s' text fn good h e (is_step st _ _ _)
            refl

      go :
          (found : Option (V → Go (Shared V W) (Result (Unit {0}))))
          → st.compensate_fn ≡ found
          → UndoneStep st s (undo found st s).0.1 (undo found st s).1
      go none h = without (record st { state = rolled_back }) good h (is_step st _ _ _) refl
      go (some fn) h = from_answer fn (fn (payload st) s) h refl

  compensate-UndoneStep :
      (st : Step V W) (s : Shared V W) → UndoneStep st s (compensate st s).0.1 (compensate st s).1
  unfolding compensate
  compensate-UndoneStep st s = elim (Bool-cases (in_state succeeded st)) [
    | inl good ↦ rw good (undo-UndoneStep st s good)
    | inr bad ↦ rw bad (untouched bad)
  ]

  pub compensate_all-UndoneStage :
      (stage : Stage V W) (s : Shared V W)
      → UndoneStage stage s (compensate_all stage s).0.1 (compensate_all stage s).1
  unfolding compensate_all
  compensate_all-UndoneStage [] s = no_step_undone s
  compensate_all-UndoneStage (st ∷ sts) s =
      step_undone st _ sts _ s _ _ (compensate-UndoneStep st s)
        (compensate_all-UndoneStage sts (compensate st s).1)

  pub unwind-Undone :
      (stages : List (Stage V W)) (s : Shared V W)
      → Undone stages s (unwind stages s).0.1 (unwind stages s).1
  unfolding unwind
  unwind-Undone [] s = no_stage_undone s
  unwind-Undone (stage ∷ stages) s =
      stage_undone stage _ stages _ s _ _ (unwind-Undone stages s)
        (compensate_all-UndoneStage stage (unwind stages s).1)
