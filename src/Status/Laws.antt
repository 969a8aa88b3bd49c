-- ===== src/Status/Laws.antt =====
-- The two classes of the status vocabulary.
use benzene_go.Prelude.{
  inl, inr, Bool, true, false, arith, Bool-cases, All, contains-All, ◌≡◌, ◌||◌, string_eq, nat_eq,
}
use benzene_go.Status.{Status, success_statuses, failure_statuses, is_success, is_failure, is_known}

-- To show a property of every success status, show it of the six.
pub is_success-All :
    (P : Status → Type 0) (s : Status) → All P success_statuses → is_success s ≡ true → P s
unfolding is_success
is_success-All P s h e = contains-All P success_statuses s h e

pub is_failure-All :
    (P : Status → Type 0) (s : Status) → All P failure_statuses → is_failure s ≡ true → P s
unfolding is_failure
is_failure-All P s h e = contains-All P failure_statuses s h e

pub is_known-All :
    (P : Status → Type 0) (s : Status)
    → All P success_statuses
    → All P failure_statuses
    → is_known s ≡ true
    → P s
unfolding is_known
is_known-All P s h k e = elim (Bool-cases (is_success s)) [
  | inl yes_success ↦ is_success-All P s h yes_success
  | inr no_success ↦ is_failure-All P s k (rw no_success at e)
]

-- No status is both a success and a failure.
pub is_success-not_failure : (s : Status) → is_success s ≡ true → is_failure s ≡ false
unfolding is_failure
is_success-not_failure s = is_success-All (λ t. is_failure t ≡ false) s (ground arith)

or_false : (a b : Bool) → (a || b) ≡ false → b ≡ false
or_false true b e = absurd (cc e)
or_false false b e = e

pub unknown-not_failure : (s : Status) → is_known s ≡ false → is_failure s ≡ false
unfolding is_known
unknown-not_failure s e = or_false (is_success s) (is_failure s) e
