-- ===== src/Maps.antt =====
-- A Go map as a list of entries. Reading, writing and deleting do not depend on the order of the
-- entries; where the source ranges over a map, the model goes through this list.
use benzene_go.Prelude.{
  ℕ, refl, subst, inl, inr, Option, none, some, List, [], arith, Eq, Bool-cases, is_some, beq_refl,
  length, All, ◌+◌, ◌≡◌, ◌∷◌, if◌then◌else◌, ◌==◌, string_eq, nat_eq,
}

abbrev pub Map {ℓ κ} : Type ℓ → Type κ → Type (ℓ ⊔ κ)
Map K V = List (K × V)

-- The weight of a value that may be missing, and the sum of the weights of a map.
abbrev pub weight {κ} : {V : Type κ} → (V → ℕ) → Option V → ℕ
weight f none = 0
weight f (some v) = f v

unfoldable pub total {ℓ κ} : {K : Type ℓ} {V : Type κ} → (V → ℕ) → Map K V → ℕ
total f [] = 0
total f ((k, v) ∷ m) = f v + total f m

module _ {ℓ κ} {K : Type ℓ} ⦃e : Eq K⦄ {V : Type κ} where
  -- v, ok := m[k]
  unfoldable pub lookup : K → Map K V → Option V
  lookup k [] = none
  lookup k ((j, v) ∷ m) = if j == k then some v else lookup k m

  -- m[k] = v
  unfoldable pub insert : K → V → Map K V → Map K V
  insert k v [] = (k, v) ∷ []
  insert k v ((j, w) ∷ m) = let rest = insert k v m in if j == k then (k, v) ∷ m else (j, w) ∷ rest

  -- delete(m, k)
  unfoldable pub delete : K → Map K V → Map K V
  delete k [] = []
  delete k ((j, v) ∷ m) = let rest = delete k m in if j == k then rest else (j, v) ∷ rest

  pub lookup-insert :
      (put got : K) (new : V) (m : Map K V)
      → lookup got (insert put new m) ≡ (if put == got then some new else lookup got m)
  unfolding insert lookup
  lookup-insert put got new [] = ground arith
  lookup-insert put got new ((at, old) ∷ rest) = ground (
    arith,
    lookup-insert put got new rest,
    e.equal_iff at got,
    e.equal_iff at put,
    e.equal_iff put got,
  )

  pub lookup-delete :
      (k j : K) (m : Map K V) → lookup j (delete k m) ≡ (if k == j then none else lookup j m)
  unfolding lookup delete
  lookup-delete k j [] = ground arith
  lookup-delete k j ((i, v) ∷ m) =
      ground (arith, lookup-delete k j m, e.equal_iff i k, e.equal_iff i j, e.equal_iff k j)

  pub lookup-insert_self : (k : K) (v : V) (m : Map K V) → lookup k (insert k v m) ≡ some v
  lookup-insert_self k v m = simp (lookup-insert, beq_refl)

  pub lookup-delete_self : (k : K) (m : Map K V) → lookup k (delete k m) ≡ none
  lookup-delete_self k m = simp (lookup-delete, beq_refl)

  -- A new key makes a map longer by one, an old key keeps its length.
  pub length-insert :
      (k : K) (v : V) (m : Map K V)
      → length (insert k v m) ≡ length m + (if is_some (lookup k m) then 0 else 1)
  unfolding lookup insert
  length-insert k v [] = refl
  length-insert k v ((j, w) ∷ m) = ground (arith, length-insert k v m)

  pub total-insert :
      (f : V → ℕ) (k : K) (v : V) (m : Map K V)
      → total f (insert k v m) + weight f (lookup k m) ≡ total f m + f v
  unfolding total insert lookup
  total-insert f k v [] = omega arith
  total-insert f k v ((j, w) ∷ m) = ground (arith, total-insert f k v m)

  -- The weights of the entries with a key.
  unfoldable pub total_at : (V → ℕ) → K → Map K V → ℕ
  total_at f k [] = 0
  total_at f k ((j, v) ∷ m) = (if j == k then f v else 0) + total_at f k m

  pub total_at-insert :
      (f : V → ℕ) (k j : K) (v : V) (m : Map K V)
      → total_at f k (insert j v m) + (if j == k then weight f (lookup k m) else 0)
        ≡ total_at f k m + (if j == k then f v else 0)
  unfolding total_at insert lookup
  total_at-insert f k j v [] = ground arith
  total_at-insert f k j v ((i, w) ∷ m) =
      ground (arith, total_at-insert f k j v m, e.equal_iff i j, e.equal_iff i k, e.equal_iff j k)

  pub insert-All {μ} :
      (P : K → V → Type μ) (k : K) (v : V) (m : Map K V)
      → P k v
      → All (λ b. P b.0 b.1) m
      → All (λ b. P b.0 b.1) (insert k v m)
  unfolding insert
  insert-All P k v [] new h = (new, tt)
  insert-All P k v ((j, w) ∷ m) new h = elim (Bool-cases (j == k)) [
    | inl same ↦ rw same (new, h.1)
    | inr other ↦ rw other (h.0, insert-All P k v m new h.1)
  ]

  -- A key that is found stands in the list, with its value.
  pub lookup-All {μ} :
      (P : K → V → Type μ) (k : K) (m : Map K V) {v : V}
      → All (λ b. P b.0 b.1) m
      → lookup k m ≡ some v
      → P k v
  unfolding lookup
  lookup-All P k [] h p = absurd (cc p)
  lookup-All P k ((j, w) ∷ m) {v} h p = elim (Bool-cases (j == k)) [
    | inl same ↦
        subst (P k) (some_inj (rw same at p)) (subst (λ i. P i w) ((e.equal_iff j k).0 same) h.0)
    | inr other ↦ lookup-All P k m h.1 (rw other at p)
  ]
    where
      some_inj : some w ≡ some v → w ≡ v
      some_inj q = cc q

pub ruleset map_laws = (lookup-insert, lookup-delete)
