-- ===== src/Prelude/Switch.antt =====
-- A `switch` on a value: the first case that lists it, else the default.
use mathlib.Core.Path.{◌≡◌, refl}
use mathlib.Core.Logic.{inl, inr}
use mathlib.Core.Bool.{Bool, true, false}
use mathlib.Core.List.{List, [], ◌∷◌}
use benzene_go.Prelude.Tests.{Eq, Bool-cases, if◌then◌else◌}
use benzene_go.Prelude.Lists.{All, contains, contains-All}

module _ {ℓ κ} {K : Type ℓ} ⦃e : Eq K⦄ {A : Type κ} where
  abbrev pub switch : K → List (List K × A) → A → A
  switch k [] d = d
  switch k ((labels, a) ∷ cases) d = if contains labels k then a else switch k cases d

  -- Without a case that lists it, a value takes the default.
  pub switch-default :
      (k : K) (cases : List (List K × A)) (d : A)
      → All (λ row. contains row.0 k ≡ false) cases
      → switch k cases d ≡ d
  switch-default k [] d h = refl
  switch-default k ((labels, a) ∷ cases) d h = rw h.0 (switch-default k cases d h.1)

  -- A value that lacks a property which every label has is listed by no case.
  pub switch-unlisted :
      (p : K → Bool) (k : K) (cases : List (List K × A)) (d : A)
      → All (λ row. All (λ t. p t ≡ true) row.0) cases
      → p k ≡ false
      → switch k cases d ≡ d
  switch-unlisted p k [] d h e = refl
  switch-unlisted p k ((labels, a) ∷ cases) d h e = elim (Bool-cases (contains labels k)) [
    | inl listed ↦ absurd (cc (e, contains-All (λ t. p t ≡ true) labels k h.0 listed))
    | inr other ↦ rw other (switch-unlisted p k cases d h.1 e)
  ]
