-- ===== src/HealthCheck.antt =====
-- healthcheck/healthcheck.go: a report over named checks, each under a key of its own. A check is
-- the result of its goroutine, or its panic; `numbered` is fmt.Sprintf("%s-%d", …).
pub mod Keys
pub mod Report
use benzene_go.Prelude.{
  ℕ, zero, suc, String, Bool, true, false, Option, none, some, List, [], is_some, length, ◌∷◌,
  if◌then◌else◌, string_eq, nat_eq,
}
use benzene_go.Maps.{Map, lookup, insert}
use benzene_go.Flow.{Flow, ret, panic, Go, pure, modify, ◌>>=◌, ◌>>◌}
use benzene_go.Pipeline.{Middleware, State, Ctx, Next, set_result}
use benzene_go.Result.{ResultInfo}

pub data CheckStatus : Type 0 where
  check_ok check_warning check_failed : CheckStatus

-- `CheckResult`; its data is the text of a panic, or what the check gives.
pub record CheckResult (D : Type 0) : Type 0 where
  pub status : CheckStatus
  pub kind : String
  pub details : D

pub record Check (D : Type 0) : Type 0 where
  pub name : String
  pub outcome : Flow (CheckResult D)

pub record HealthReport (D : Type 0) : Type 0 where
  pub is_healthy : Bool
  pub health_checks : Map String (CheckResult D)

module _ {D : Type 0} where
  -- `runCheck`; `panicked` makes the data of a recovered panic.
  unfoldable pub run_check : (String → D) → Check D → CheckResult D
  run_check panicked check = elim check.outcome [
    | ret result ↦ result
    | panic text ↦ record { status = check_failed; kind = check.name; details = panicked text }
  ]

  -- The loop of `dedupeKey`, on fuel: `none` where it has not ended yet.
  unfoldable pub free_key :
      (String → ℕ → String) → ℕ → ℕ → Map String (CheckResult D) → String → Option String
  free_key numbered zero n existing name = none
  free_key numbered (suc fuel) n existing name =
      let rest = free_key numbered fuel (suc n) existing name in
      if is_some (lookup (numbered name n) existing) then rest else some (numbered name n)

  -- `dedupeKey`
  unfoldable pub dedupe_key :
      (String → ℕ → String) → Map String (CheckResult D) → String → Option String
  unfolding free_key
  dedupe_key numbered existing name =
      if is_some (lookup name existing)
      then free_key numbered (suc (length existing)) 2 existing name
      else some name

  abbrev pub is_failed : CheckResult D → Bool
  is_failed result = elim result.status [ check_failed ↦ true | _ ↦ false ]

  -- The last loop of `Run`.
  unfoldable pub collect :
      (String → ℕ → String)
      → (String → D)
      → List (Check D)
      → HealthReport D
      → Option (HealthReport D)
  unfolding dedupe_key run_check
  collect numbered panicked [] report = some report
  collect numbered panicked (check ∷ checks) report =
      let result = run_check panicked check in
      elim (dedupe_key numbered report.health_checks check.name) [
        | none ↦ none
        | some key ↦ collect numbered panicked checks (record {
          is_healthy = if is_failed result then false else report.is_healthy;
          health_checks = insert key result report.health_checks;
        })
      ]

  -- `Run`
  unfoldable pub run_checks :
      (String → ℕ → String) → (String → D) → List (Check D) → Option (HealthReport D)
  unfolding collect
  run_checks numbered panicked checks =
      collect numbered panicked checks (record { is_healthy = true; health_checks = [] })
