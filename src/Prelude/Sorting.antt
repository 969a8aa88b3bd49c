-- ===== src/Prelude/Sorting.antt =====
-- Sums over a list, its first elements, and sorting by a Boolean order.
use Prim.Native.Nat.{ℕ, zero, suc, ◌+◌, ◌≤◌}
use mathlib.Core.Path.{◌≡◌, refl, ap}
use mathlib.Core.Logic.{◌⊎◌, inl, inr}
use mathlib.Core.Bool.{Bool, true, false}
use mathlib.Core.List.{List, [], ◌∷◌, ◌++◌}
use native.Mathlib.Omega.{arith}
use benzene_go.Prelude.Tests.{if◌then◌else◌, Bool-cases}
use benzene_go.Prelude.Lists.{length}

module _ {ℓ} {A : Type ℓ} where
  unfoldable pub sum_by : (A → ℕ) → List A → ℕ
  sum_by f [] = 0
  sum_by f (x ∷ xs) = f x + sum_by f xs

  -- l[:n], for n within the length
  unfoldable pub take : ℕ → List A → List A
  take zero xs = []
  take (suc n) [] = []
  take (suc n) (x ∷ xs) = x ∷ take n xs

  pub length-take : (n : ℕ) (xs : List A) → length (take n xs) ≤ n
  unfolding take
  length-take zero xs = omega arith
  length-take (suc n) [] = omega arith
  length-take (suc n) (x ∷ xs) = omega (arith, length-take n xs)

  -- l[n:], for n within the length
  unfoldable pub drop : ℕ → List A → List A
  drop zero xs = xs
  drop (suc n) [] = []
  drop (suc n) (x ∷ xs) = drop n xs

  pub take-drop : (n : ℕ) (xs : List A) → take n xs ++ drop n xs ≡ xs
  unfolding take drop
  take-drop zero xs = refl
  take-drop (suc n) [] = refl
  take-drop (suc n) (x ∷ xs) = ap (λ l. x ∷ l) (take-drop n xs)

  -- Nothing is dropped, or the number that is taken is reached.
  pub drop-full : (n : ℕ) (xs : List A) → (drop n xs ≡ []) ⊎ (length (take n xs) ≡ n)
  unfolding take drop
  drop-full zero xs = inr refl
  drop-full (suc n) [] = inl refl
  drop-full (suc n) (x ∷ xs) = elim (drop-full n xs) [
    | inl all ↦ inl all
    | inr full ↦ inr (omega (arith, full))
  ]

  pub sum_by-append : (f : A → ℕ) (xs ys : List A) → sum_by f (xs ++ ys) ≡ sum_by f xs + sum_by f ys
  unfolding sum_by
  sum_by-append f [] ys = omega arith
  sum_by-append f (x ∷ xs) ys = omega (arith, sum_by-append f xs ys)

  -- `sort.Slice` with the given `less`: equal elements keep their order here.
  module _ (less : A → A → Bool) where
    unfoldable pub sorted_insert : A → List A → List A
    sorted_insert x [] = x ∷ []
    sorted_insert x (y ∷ ys) =
        let rest = sorted_insert x ys in if less y x then y ∷ rest else x ∷ y ∷ ys

    unfoldable pub sort_by : List A → List A
    unfolding sorted_insert
    sort_by [] = []
    sort_by (x ∷ xs) = sorted_insert x (sort_by xs)

    sum_by-sorted_insert :
        (f : A → ℕ) (x : A) (ys : List A) → sum_by f (sorted_insert x ys) ≡ f x + sum_by f ys
    unfolding sum_by sorted_insert
    sum_by-sorted_insert f x [] = refl
    sum_by-sorted_insert f x (y ∷ ys) = ground (arith, sum_by-sorted_insert f x ys)

    -- Sorting keeps every sum, so also the number of elements that pass a test.
    pub sum_by-sort_by : (f : A → ℕ) (xs : List A) → sum_by f (sort_by xs) ≡ sum_by f xs
    unfolding sum_by sort_by
    sum_by-sort_by f [] = refl
    sum_by-sort_by f (x ∷ xs) =
        omega (arith, sum_by-sorted_insert f x (sort_by xs), sum_by-sort_by f xs)

    -- No element may stand before one that is less.
    unfoldable pub IsSorted : List A → Type 0
    IsSorted [] = Unit
    IsSorted (x ∷ []) = Unit
    IsSorted (x ∷ y ∷ ys) = (less y x ≡ false) × IsSorted (y ∷ ys)

    module _ (asym : (x y : A) → less x y ≡ true → less y x ≡ false) where
      sorted_insert-after :
          (x y : A) (ys : List A)
          → less y x ≡ true
          → IsSorted (y ∷ ys)
          → IsSorted (sorted_insert x ys)
          → IsSorted (y ∷ sorted_insert x ys)
      unfolding sorted_insert IsSorted
      sorted_insert-after x y [] lt s k = (asym y x lt, tt)
      sorted_insert-after x y (z ∷ ys) lt s k = elim (Bool-cases (less z x)) [
        | inl under ↦ rw under (s.0, rw under at k)
        | inr over ↦ rw over (asym y x lt, rw over at k)
      ]

      IsSorted-tail : (x : A) (xs : List A) → IsSorted (x ∷ xs) → IsSorted xs
      unfolding IsSorted
      IsSorted-tail x [] s = tt
      IsSorted-tail x (y ∷ ys) s = s.1

      sorted_insert-IsSorted : (x : A) (ys : List A) → IsSorted ys → IsSorted (sorted_insert x ys)
      unfolding sorted_insert IsSorted
      sorted_insert-IsSorted x [] s = tt
      sorted_insert-IsSorted x (y ∷ ys) s = elim (Bool-cases (less y x)) [
        | inl under ↦ rw under (
            sorted_insert-after x y ys under s (sorted_insert-IsSorted x ys (IsSorted-tail y ys s)))
        | inr over ↦ rw over (over, s)
      ]

      pub sort_by-IsSorted : (xs : List A) → IsSorted (sort_by xs)
      unfolding sort_by IsSorted
      sort_by-IsSorted [] = tt
      sort_by-IsSorted (x ∷ xs) = sorted_insert-IsSorted x (sort_by xs) (sort_by-IsSorted xs)
