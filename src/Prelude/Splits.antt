-- ===== src/Prelude/Splits.antt =====
-- Go's `strings.Split` and `strings.SplitN` at a separator of one character.
use Prim.Native.Nat.{ℕ, zero, suc}
use Prim.Native.Char.{Char, code}
use Prim.Native.String.{String}
use Prim.Native.String
use Prim.Native.String.append
use mathlib.Core.Logic.{inl, inr}
use mathlib.Core.Path.{◌≡◌, refl, ap, ◌∙◌}
use mathlib.Core.Bool.{Bool, true, not, ◌&&◌}
use native.Mathlib.Omega.{arith}
use mathlib.Core.Option.{Option, none, some}
use mathlib.Core.List.{List, [], ◌∷◌}
use benzene_go.Prelude.Tests.{if◌then◌else◌, nat_beq, Bool-cases}

-- A text with one more character in front, and the first of some texts so.
abbrev pub in_front : Char → List String → List String
in_front c [] = String.◌∷◌ c "" ∷ []
in_front c (t ∷ ts) = String.◌∷◌ c t ∷ ts

-- strings.Split(s, sep)
unfoldable pub split : Char → String → List String
split sep String.[] = "" ∷ []
split sep (String.◌∷◌ c s) =
    let rest = split sep s in if nat_beq (code c) (code sep) then "" ∷ rest else in_front c rest

abbrev cut_in_front : Char → Option (String × String) → Option (String × String)
cut_in_front c none = none
cut_in_front c (some (before, after)) = some (String.◌∷◌ c before, after)

-- What stands before and after the first separator.
unfoldable pub cut : Char → String → Option (String × String)
cut sep String.[] = none
cut sep (String.◌∷◌ c s) =
    let rest = cut sep s in
    if nat_beq (code c) (code sep) then some ("", s) else cut_in_front c rest

-- strings.SplitN(s, sep, n), for a positive n
unfoldable pub split_n : Char → ℕ → String → List String
unfolding cut
split_n sep zero s = []
split_n sep (suc zero) s = s ∷ []
split_n sep (suc (suc n)) s = elim (cut sep s) [
  | none ↦ s ∷ []
  | some (before, after) ↦ before ∷ split_n sep (suc n) after
]

-- Whether a text has no such separator.
unfoldable pub lacks : Char → String → Bool
lacks sep String.[] = true
lacks sep (String.◌∷◌ c s) = not (nat_beq (code c) (code sep)) && lacks sep s

module _ (sep : Char) where
  same : nat_beq (code sep) (code sep) ≡ true
  same = ground arith

  -- The first separator stands behind a text that lacks it.
  pub cut-append :
      (s t : String) → lacks sep s ≡ true → cut sep (String.◌++◌ s (String.◌∷◌ sep t)) ≡ some (s, t)
  unfolding cut lacks
  cut-append String.[] t h = ap (cut sep) (λ i. append.nil (String.◌∷◌ sep t) i) ∙ rw same refl
  cut-append (String.◌∷◌ c s) t h =
      ap (cut sep) (λ i. append.cons c s (String.◌∷◌ sep t) i)
      ∙ elim (Bool-cases (nat_beq (code c) (code sep))) [
        | inl e ↦ absurd (cc (rw e at h))
        | inr e ↦ rw e (ap (cut_in_front c) (cut-append s t (rw e at h)))
      ]

  -- The first field of a text that is split in at most `n`, and the text that is left.
  pub split_n-append :
      (n : ℕ) (s t : String)
      → lacks sep s ≡ true
      → split_n sep (suc (suc n)) (String.◌++◌ s (String.◌∷◌ sep t)) ≡ s ∷ split_n sep (suc n) t
  unfolding split_n
  split_n-append n s t h = rw (cut-append s t h, split_n) refl

  -- The same for a split at every separator.
  pub split-append :
      (s t : String)
      → lacks sep s ≡ true
      → split sep (String.◌++◌ s (String.◌∷◌ sep t)) ≡ s ∷ split sep t
  unfolding split lacks
  split-append String.[] t h = ap (split sep) (λ i. append.nil (String.◌∷◌ sep t) i) ∙ rw same refl
  split-append (String.◌∷◌ c s) t h =
      ap (split sep) (λ i. append.cons c s (String.◌∷◌ sep t) i)
      ∙ elim (Bool-cases (nat_beq (code c) (code sep))) [
        | inl e ↦ absurd (cc (rw e at h))
        | inr e ↦ rw e (ap (in_front c) (split-append s t (rw e at h)))
      ]

  pub split-lacks : (s : String) → lacks sep s ≡ true → split sep s ≡ s ∷ []
  unfolding split lacks
  split-lacks String.[] h = refl
  split-lacks (String.◌∷◌ c s) h = elim (Bool-cases (nat_beq (code c) (code sep))) [
    | inl e ↦ absurd (cc (rw e at h))
    | inr e ↦ rw e (ap (in_front c) (split-lacks s (rw e at h)))
  ]
