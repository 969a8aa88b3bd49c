-- ===== src/Idempotency/Exclusive.antt =====
-- The in-memory store between a claim and its expiry.
use benzene_go.Prelude.{
  ℕ, String, ap, inl, false, some, List, [], arith, eq_iff, All, ◌+◌, ◌<◌, ◌≡◌, ◌⊎◌, ◌∷◌, ◌==◌,
  string_eq, nat_eq,
}
use benzene_go.Maps.{lookup, lookup-insert, lookup-delete, lookup-insert_self}
use benzene_go.Idempotency.{
  in_progress, completed, ClaimResult, won, lost, Memory, claim, complete, release, Err,
}

-- What workers and the clock may do to the store.
pub data Op : Type 0 where
  claims completes releases : String → Op
  ticks : ℕ → Op

unfoldable pub apply : Op → Memory → Memory
apply (claims k) m = (claim k m).1
apply (completes k) m = (complete k m).1
apply (releases k) m = (release k m).1
apply (ticks n) m = record m { now = m.now + n }

unfoldable pub apply_all : List Op → Memory → Memory
unfolding apply
apply_all [] m = m
apply_all (op ∷ ops) m = apply_all ops (apply op m)

unfoldable pub elapsed : List Op → ℕ
elapsed [] = 0
elapsed (ticks n ∷ ops) = n + elapsed ops
elapsed (_ ∷ ops) = elapsed ops

-- No operation of the list gives the key up.
abbrev pub Keeps : String → Op → Type 0
Keeps k (releases j) = (j == k) ≡ false
Keeps k (completes j) = (j == k) ≡ false
Keeps k _ = Unit {0}

-- The key is held, in progress, until a time.
abbrev pub HeldUntil : String → ℕ → Memory → Type 0
HeldUntil k t m = lookup k m.entries ≡ some (record { status = in_progress; expires_at = t })

won_held :
    (k : String) (m : Memory)
    → (claim k m).0 ≡ inl won
    → HeldUntil k (m.now + m.lease_ttl) (claim k m).1 × ((claim k m).1.now ≡ m.now)
unfolding claim
won_held k m first = ground (
  arith,
  lookup-insert_self k (record { status = in_progress; expires_at = m.now + m.lease_ttl })
      m.entries,
)

claim_held :
    (k : String) (t : ℕ) (m : Memory)
    → HeldUntil k t m
    → m.now < t
    → claim k m ≡ (inl (lost in_progress), m)
unfolding claim
claim_held k t m h lt = ground arith

-- One operation that does not give the key up leaves it held, while its lease lasts.
apply-HeldUntil :
    (k : String) (t : ℕ) (op : Op) (m : Memory)
    → Keeps k op
    → HeldUntil k t m
    → m.now < t
    → HeldUntil k t (apply op m)
unfolding apply
apply-HeldUntil k t (claims j) m keep h lt =
    unfold claim in
    ground (
      arith,
      eq_iff j k,
      lookup-insert j k (record { status = in_progress; expires_at = m.now + m.lease_ttl })
          m.entries,
    )
apply-HeldUntil k t (completes j) m keep h lt =
    unfold complete in
    ground (
      arith,
      lookup-insert j k (record { status = completed; expires_at = m.now + m.completed_ttl })
          m.entries,
    )
apply-HeldUntil k t (releases j) m keep h lt =
    unfold release in ground (arith, lookup-delete j k m.entries)
apply-HeldUntil k t (ticks n) m keep h lt = h

now-apply : (op : Op) (m : Memory) → (apply op m).now ≡ m.now + elapsed (op ∷ [])
unfolding apply elapsed claim complete release
now-apply (claims j) m = ground arith
now-apply (completes j) m = ground arith
now-apply (releases j) m = ground arith
now-apply (ticks n) m = ground arith

elapsed-cons : (op : Op) (ops : List Op) → elapsed (op ∷ ops) ≡ elapsed (op ∷ []) + elapsed ops
unfolding elapsed
elapsed-cons (claims j) ops = omega arith
elapsed-cons (completes j) ops = omega arith
elapsed-cons (releases j) ops = omega arith
elapsed-cons (ticks n) ops = omega arith

apply_all-HeldUntil :
    (k : String) (t : ℕ) (ops : List Op) (m : Memory)
    → All (Keeps k) ops
    → HeldUntil k t m
    → m.now + elapsed ops < t
    → HeldUntil k t (apply_all ops m) × ((apply_all ops m).now < t)
unfolding apply_all
apply_all-HeldUntil k t [] m keep h lt = (h, omega (arith, lt))
apply_all-HeldUntil k t (op ∷ ops) m (keep, keeps) h lt =
    apply_all-HeldUntil k t ops (apply op m) keeps (apply-HeldUntil k t op m keep h (omega arith))
      (omega (arith, now-apply op m, elapsed-cons op ops))

-- After a won claim of a key, and whatever claims of any key, settlements of other keys and
-- passing of time follow, a second claim of the key is lost as in progress, as long as less time
-- than the lease has passed.
pub claim-exclusive :
    (k : String) (ops : List Op) (m : Memory)
    → (claim k m).0 ≡ inl won
    → All (Keeps k) ops
    → elapsed ops < m.lease_ttl
    → (claim k (apply_all ops (claim k m).1)).0 ≡ inl (lost in_progress)
claim-exclusive k ops m first keep within =
    let t = m.now + m.lease_ttl in
    let (h, at) = won_held k m first in
    let (held, lt) = apply_all-HeldUntil k t ops (claim k m).1 keep h (omega (arith, at)) in
    ap (λ (p : (ClaimResult ⊎ Err) × Memory). p.0)
      (claim_held k t (apply_all ops (claim k m).1) held lt)
