-- ===== src/HealthCheck/Report.antt =====
-- A report has a result for every check, and is healthy where none of them failed.
use benzene_go.Prelude.{
  ℕ, String, refl, ap, inl, inr, true, false, some, List, [], arith, nat_beq, Option-cases, is_some,
  length, sum_by, ◌+◌, ◌≡◌, ◌∙◌, ◌∷◌, if◌then◌else◌, string_eq, nat_eq,
}
use benzene_go.Maps.{Map, lookup, insert, length-insert, total, weight, total-insert}
use benzene_go.HealthCheck.{
  CheckResult, Check, HealthReport, run_check, is_failed, collect, run_checks,
}
use benzene_go.HealthCheck.Keys.{IsNumbering, dedupe_key-total}

unweighed :
    {D : Type 0} (f : CheckResult D → ℕ) (key : String) (result : CheckResult D)
    (results : Map String (CheckResult D))
    → is_some (lookup key results) ≡ false
    → total f (insert key result results) ≡ total f results + f result
unweighed f key result results free = elim (Option-cases (lookup key results)) [
  | inl absent ↦ omega (arith, total-insert f key result results, ap (weight f) absent)
  | inr (old, e) ↦ absurd (cc (rw e at free))
]

-- One for a failed result.
abbrev pub failure : {D : Type 0} → CheckResult D → ℕ
failure result = if is_failed result then 1 else 0

abbrev pub failing : {D : Type 0} → (String → D) → Check D → ℕ
failing panicked check = failure (run_check panicked check)

-- The report is healthy exactly where no result in it failed.
abbrev pub IsHonest : {D : Type 0} → HealthReport D → Type 0
IsHonest report = report.is_healthy ≡ nat_beq (total failure report.health_checks) 0

pub record IsReport {D : Type 0} (panicked : String → D) (checks : List (Check D))
    (before after : HealthReport D) : Type 0 where
  pub honest : IsHonest after
  pub entries_eq : length after.health_checks ≡ length before.health_checks + length checks
  pub failures :
      total failure after.health_checks
      ≡ total failure before.health_checks + sum_by (failing panicked) checks

module _ {D : Type 0} (numbered : String → ℕ → String) (numbering : IsNumbering numbered)
    (panicked : String → D) where
  collect-IsReport :
      (checks : List (Check D)) (report : HealthReport D)
      → IsHonest report
      → (after : HealthReport D) × (collect numbered panicked checks report ≡ some after)
        × IsReport panicked checks report after
  unfolding collect sum_by
  collect-IsReport [] report honest =
      (report, refl, record { honest = honest; entries_eq = omega arith; failures = omega arith })
  collect-IsReport (check ∷ checks) report honest =
      let result = run_check panicked check in
      let (key, found, free) =
        dedupe_key-total numbered numbering report.health_checks check.name in
      let healthy = if is_failed result then false else report.is_healthy in
      let grown : HealthReport D = record {
        is_healthy = healthy;
        health_checks = insert key result report.health_checks;
      } in
      let more : total failure grown.health_checks
          ≡ total failure report.health_checks + failure result =
        unweighed failure key result report.health_checks free in
      let (after, ran, rest) = collect-IsReport checks grown (ground (arith, honest, more)) in
      (
        after,
        rw (found, collect) ran,
        record {
          honest = rest.honest;
          entries_eq = omega (
            arith,
            rest.entries_eq,
            length-insert key result report.health_checks,
            ap {B = ℕ} (λ b. if b then 0 else 1) free,
          );
          failures = omega (arith, rest.failures, more);
        },
      )

  -- If different numbers make different keys, the search for a free key always ends, so a health
  -- report is always made: it has an entry for every check, as many failed entries as checks that
  -- failed or panicked, and is healthy exactly if there are none.
  pub run_checks-IsReport :
      (checks : List (Check D))
      → (report : HealthReport D) × (run_checks numbered panicked checks ≡ some report)
        × (length report.health_checks ≡ length checks)
        × (total failure report.health_checks ≡ sum_by (failing panicked) checks)
        × (report.is_healthy ≡ nat_beq (sum_by (failing panicked) checks) 0)
  unfolding run_checks total
  run_checks-IsReport checks =
      let (report, ran, is) =
        collect-IsReport checks (record { is_healthy = true; health_checks = [] }) refl in
      (
        report,
        ran,
        omega (arith, is.entries_eq),
        omega (arith, is.failures),
        is.honest ∙ ap (λ n. nat_beq n 0) (omega (arith, is.failures)),
      )
