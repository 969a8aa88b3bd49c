-- ===== src/Result/Laws.antt =====
-- The class of a result against the class of its status.
use benzene_go.Prelude.{
  String, refl, inl, inr, true, false, Option, some, List, arith, Bool-cases, ◌≡◌, ◌==◌, string_eq,
  nat_eq,
}
use benzene_go.Flow.{ret}
use benzene_go.Status.{Status, is_success, is_failure, is_known}
use benzene_go.Status.Laws.{is_success-not_failure, is_success-All}
use benzene_go.Wire.{ProblemError, ErrorPayload}
use benzene_go.Result.{
  Result, literal, failed, fail_with, fail, problem_result, is_successful, errors_from_messages,
}

is_success-is_known : (s : Status) → is_known s ≡ true → is_failure s ≡ false → is_success s ≡ true
unfolding is_known
is_success-is_known s k n = ground arith

is_success-nonempty : (s : Status) → is_success s ≡ true → (s == "") ≡ false
is_success-nonempty s = is_success-All (λ t. (t == "") ≡ false) s (ground arith)

module _ {A : Type 0} where
  -- The ways to a result that go through a literal, `Fail` or `FailWith`.
  pub data Built : Result A → Type 0 where
    by_literal :
        (s : Status) (payload : Option A) (es : List ProblemError) → Built (literal s payload es)
    by_fail : (s : Status) (texts : List String) {r : Result A} → fail s texts ≡ ret r → Built r
    by_fail_with :
        (s : Status) (es : List ProblemError) {r : Result A} → fail_with s es ≡ ret r → Built r

  fail_with-class :
      (s : Status) (es : List ProblemError) {r : Result A}
      → fail_with s es ≡ ret r
      → is_successful r ≡ is_success r.status
  unfolding fail_with is_successful
  fail_with-class s es h = ground arith

  fail-eq :
      (s : Status) (texts : List String) (r : Result A)
      → fail s texts ≡ ret r
      → fail_with s (errors_from_messages texts) ≡ ret r
  unfolding fail
  fail-eq s texts r h = ground arith

  -- For a result that a literal, `Fail` or `FailWith` made and whose status is in the vocabulary,
  -- the result is successful exactly when its status is a success status.
  pub Built-class :
      {r : Result A} → Built r → is_known r.status ≡ true → is_successful r ≡ is_success r.status
  unfolding is_successful
  Built-class (by_literal s payload es) k = elim (Bool-cases (is_failure s)) [
    | inl bad ↦ elim (Bool-cases (is_success s)) [
      | inl good ↦ absurd (cc (bad, is_success-not_failure s good))
      | inr not_good ↦ rw (bad, not_good)
    ]
    | inr fine ↦ rw (fine, is_success-is_known s k fine)
  ]
  Built-class (by_fail s texts {r} h) k =
      fail_with-class s (errors_from_messages texts) (fail-eq s texts r h)
  Built-class (by_fail_with s es h) k = fail_with-class s es h

  -- For a problem document with a success status, `ProblemResult` returns a result that has a
  -- success status and is not successful.
  pub problem_result-contradicts :
      (p : ErrorPayload)
      → is_success p.benzene_status ≡ true
      → (r : Result A) × (problem_result p ≡ ret r)
        × (is_success r.status ≡ true)
        × (is_successful r ≡ false)
  unfolding problem_result is_successful
  problem_result-contradicts p h = (
    record (failed p.benzene_status p.errors) { problem = some p },
    rw (is_success-nonempty p.benzene_status h) refl,
    h,
    refl,
  )
