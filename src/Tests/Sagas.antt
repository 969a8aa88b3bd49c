-- ===== src/Tests/Sagas.antt =====
-- A saga whose second stage fails: the first is undone, or its compensation fails too.
use benzene_go.Prelude.{ℕ, String, none, some, List, [], ◌+◌, ◌-◌, ◌≤◌, ◌∷◌}
use benzene_go.Flow.{ret}
use benzene_go.Result.{ok, failed, errors_from_messages}
use benzene_go.Status.{status_conflict}
use benzene_go.Saga.Steps.{Step, new_keyed_step}
use benzene_go.Saga.Engine.{RunOptions, RetryPolicy, Stage, run_once}
use benzene_go.Saga.Outcomes.{Over, started, run_once-Over}
use benzene_go.Saga.Retries.{
  Tries, named, identified, max_attempts, first_delay, run_with, run_with-Tries,
}

abbrev reserves : Step ℕ ℕ
reserves =
    new_keyed_step "int" "" 0 (λ s. (ret (ok 1), record s { world = s.world + 1 }))
      (some (λ v s. (ret (ok tt), record s { world = s.world - v })))

abbrev declines : Step ℕ ℕ
declines =
    new_keyed_step "int" "" 0
      (λ s. (ret (failed status_conflict (errors_from_messages ("sold out" ∷ []))), s)) none

abbrev stages : List (Stage ℕ ℕ)
stages = (reserves ∷ []) ∷ (declines ∷ []) ∷ (reserves ∷ []) ∷ []

abbrev twice : RetryPolicy ℕ
twice = record { max_attempts = 2; initial_delay = 0; grow = λ d. d + d; sleep = λ d w. w }

abbrev options : RunOptions ℕ ℕ
options = record {
  run_name = "order";
  run_saga_id = "s-1";
  state_store = none;
  retry_policy = some twice;
}

run_once-Over_example :
    let ran = run_once options 1 "s-1" stages 0 in
    Over none "s-1" 1 (started options 1 "s-1" stages 0) stages ran.0.0 ran.0.1 ran.1
run_once-Over_example = run_once-Over options 1 "s-1" stages 0

abbrev no_id : ℕ → String × ℕ
no_id w = ("", w)

run_with-Tries_example :
    (n : ℕ) × Tries
      (named options)
      (identified no_id options 0).0
      (max_attempts (some twice) - 1)
      1
      (first_delay (some twice))
      stages
      (identified no_id options 0).1
      n
      (run_with no_id options stages 0)
    × (n ≤ max_attempts (some twice))
run_with-Tries_example = run_with-Tries no_id options stages 0
