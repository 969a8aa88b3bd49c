-- ===== src/MeshCollector/Exemplars.antt =====
-- meshd/store.go, `newestExemplars`: the trace ids that an issue keeps.
use benzene_go.Prelude.{
  ℕ, zero, suc, String, refl, ap, inl, inr, List, [], arith, ltb, Bool-cases, length, length-append,
  ◌+◌, ◌-◌, ◌≡◌, ◌∷◌, ◌++◌, if◌then◌else◌,
}

abbrev pub max_exemplars : ℕ
max_exemplars = 3

-- s[n:], for n within the length
unfoldable pub drop_first : ℕ → List String → List String
drop_first zero ids = ids
drop_first (suc n) [] = []
drop_first (suc n) (id ∷ ids) = drop_first n ids

unfoldable pub newest_exemplars : List String → List String → List String
unfolding drop_first
newest_exemplars existing delta =
    let combined = existing ++ delta in
    if ltb max_exemplars (length combined)
    then drop_first (length combined - max_exemplars) combined
    else combined

-- `newest` is what is left of `ids` when the oldest are dropped.
pub data IsNewest (ids newest : List String) : Type 0 where
  after : (older : List String) → ids ≡ older ++ newest → IsNewest ids newest

length-drop_first : (n : ℕ) (ids : List String) → length (drop_first n ids) ≡ length ids - n
unfolding drop_first
length-drop_first zero ids = omega arith
length-drop_first (suc n) [] = omega arith
length-drop_first (suc n) (id ∷ ids) = omega (arith, length-drop_first n ids)

drop_first-IsNewest : (n : ℕ) (ids : List String) → IsNewest ids (drop_first n ids)
unfolding drop_first
drop_first-IsNewest zero ids = after [] refl
drop_first-IsNewest (suc n) [] = after [] refl
drop_first-IsNewest (suc n) (id ∷ ids) = kept (drop_first-IsNewest n ids)
  where
    kept : IsNewest ids (drop_first n ids) → IsNewest (id ∷ ids) (drop_first n ids)
    kept (after older e) = after (id ∷ older) (ap (λ l. id ∷ l) e)

-- The trace ids that an issue keeps when new ones are added are the last of the old and the new in
-- order, three of them, or all of them where there are fewer.
pub newest_exemplars-IsNewest :
    (existing delta : List String)
    → IsNewest (existing ++ delta) (newest_exemplars existing delta)
      × (length (newest_exemplars existing delta) ≡ (
          if ltb max_exemplars (length existing + length delta)
          then max_exemplars
          else length existing + length delta))
unfolding newest_exemplars
newest_exemplars-IsNewest existing delta =
    elim (Bool-cases (ltb max_exemplars (length (existing ++ delta)))) [
      | inl more ↦ rw more (
        drop_first-IsNewest _ (existing ++ delta),
        rw length-drop_first (ground (arith, length-append existing delta)),
      )
      | inr fits ↦ rw fits (after [] refl, ground (arith, length-append existing delta))
    ]
