-- ===== src/HealthCheck/Keys.antt =====
-- The search for a free key ends.
use benzene_go.Prelude.{
  ℕ, zero, suc, String, refl, sym, subst, inl, inr, Bool, true, false, some, [], arith, string_eq,
  Bool-cases, is_some, length, ◌≤◌, ◌<◌, ◌≡◌, ◌∙◌, ◌∷◌, ◌==◌,
}
use benzene_go.Maps.{Map, lookup, delete, lookup-delete}
use benzene_go.HealthCheck.{CheckResult, free_key, dedupe_key}

-- Different numbers give different keys.
abbrev pub IsNumbering : (String → ℕ → String) → Type 0
IsNumbering numbered = (name : String) (m n : ℕ) → numbered name m ≡ numbered name n → m ≡ n

numbered-differ :
    (numbered : String → ℕ → String)
    → IsNumbering numbered
    → (name : String) (m n : ℕ) → n < m
    → (numbered name n == numbered name m) ≡ false
numbered-differ numbered numbering name m n lt =
    elim (Bool-cases (numbered name n == numbered name m)) [
      | inl same ↦ absurd (
          omega (
            arith,
            lt,
            numbering name n m ((string_eq.equal_iff (numbered name n) (numbered name m)).0 same),
          ))
      | inr other ↦ other
    ]

module _ {D : Type 0} (numbered : String → ℕ → String) (numbering : IsNumbering numbered) where
  abbrev taken : String → ℕ → Map String (CheckResult D) → Bool
  taken name n existing = is_some (lookup (numbered name n) existing)

  -- The search reads the map only at the keys that are still to come.
  free_key-agree :
      (fuel n : ℕ) (a b : Map String (CheckResult D)) (name : String)
      → ((m : ℕ) → n ≤ m → taken name m a ≡ taken name m b)
      → free_key numbered fuel n a name ≡ free_key numbered fuel n b name
  unfolding free_key
  free_key-agree zero n a b name h = refl
  free_key-agree (suc fuel) n a b name h =
      rw (h n (omega arith), free_key-agree fuel (suc n) a b name (λ m le. h m (omega (arith, le))))
        refl

  length-delete :
      (k : String) (existing : Map String (CheckResult D))
      → is_some (lookup k existing) ≡ true
      → length (delete k existing) < length existing
  unfolding delete lookup
  length-delete k [] h = absurd (cc h)
  length-delete k ((j, v) ∷ existing) h = elim (Bool-cases (j == k)) [
    | inl same ↦ rw same (omega (arith, shorter existing))
    | inr other ↦ rw other (omega (arith, length-delete k existing (rw other at h)))
  ]
    where
      shorter : (m : Map String (CheckResult D)) → length (delete k m) ≤ length m
      shorter [] = omega arith
      shorter ((i, w) ∷ m) = ground (arith, shorter m)

  -- A key that the search gives is free.
  free_key-free :
      (fuel n : ℕ) (existing : Map String (CheckResult D)) (name key : String)
      → free_key numbered fuel n existing name ≡ some key
      → is_some (lookup key existing) ≡ false
  unfolding free_key
  free_key-free zero n existing name key h = absurd (cc h)
  free_key-free (suc fuel) n existing name key h = elim (Bool-cases (taken name n existing)) [
    | inl used ↦ free_key-free fuel (suc n) existing name key (rw used at h)
    | inr free ↦ subst (λ k. is_some (lookup k existing) ≡ false) (cc (rw free at h)) free
  ]

  -- With more fuel than there are entries, the search ends.
  free_key-total :
      (fuel n : ℕ) (existing : Map String (CheckResult D)) (name : String)
      → length existing < fuel
      → (key : String) × (free_key numbered fuel n existing name ≡ some key)
  unfolding free_key
  free_key-total zero n existing name h = absurd (omega (arith, h))
  free_key-total (suc fuel) n existing name h = elim (Bool-cases (taken name n existing)) [
    | inl used ↦
        let rest = delete (numbered name n) existing in
        let (key, found) =
          free_key-total fuel (suc n) rest name
            (omega (arith, h, length-delete (numbered name n) existing used)) in
        (
          key,
          rw used (
              free_key-agree fuel (suc n) existing rest name
                (λ m le. sym (still name n m existing (omega (arith, le))))
              ∙ found),
        )
    | inr free ↦ (numbered name n, rw free refl)
  ]
    where
      still :
          (name : String) (n m : ℕ) (existing : Map String (CheckResult D))
          → n < m
          → taken name m (delete (numbered name n) existing) ≡ taken name m existing
      still name n m existing lt =
          rw
            (
              lookup-delete (numbered name n) (numbered name m) existing,
              numbered-differ numbered numbering name m n lt,
            )
            refl

  -- The key of a check is always found, and was free.
  pub dedupe_key-total :
      (existing : Map String (CheckResult D)) (name : String)
      → (key : String) × (dedupe_key numbered existing name ≡ some key)
        × (is_some (lookup key existing) ≡ false)
  unfolding dedupe_key
  dedupe_key-total existing name = elim (Bool-cases (is_some (lookup name existing))) [
    | inl used ↦
        let (key, found) = free_key-total (suc (length existing)) 2 existing name (omega arith) in
        (key, rw used found, free_key-free (suc (length existing)) 2 existing name key found)
    | inr free ↦ (name, rw free refl, free)
  ]
