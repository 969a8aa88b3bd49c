-- ===== src/Prelude/Texts.antt =====
-- The order of Go's `<` on strings, which compares them byte by byte.
use Prim.Native.Nat.{ℕ, Ordering, compare as compare_nat}
use Prim.Native.Char.{code}
use Prim.Native.String
use Prim.Native.String.{String, compare}
use Prim.Native.String.compare as clauses
use mathlib.Core.Path.{◌≡◌, refl, ap, ◌∙◌, sym}
use mathlib.Core.Bool.{Bool, true, false}
use native.Mathlib.Omega.{arith}

abbrev pub text_ltb : String → String → Bool
text_ltb s t = elim (compare s t) [ Ordering.lt ↦ true | _ ↦ false ]

flip : Ordering → Ordering
flip Ordering.lt = Ordering.gt
flip Ordering.eq = Ordering.eq
flip Ordering.gt = Ordering.lt

compare_nat-flip : (a b : ℕ) → compare_nat b a ≡ flip (compare_nat a b)
unfolding flip
compare_nat-flip a b = ground arith

then-flip : (o p : Ordering) → String.then (flip o) (flip p) ≡ flip (String.then o p)
unfolding flip
then-flip Ordering.lt p = refl
then-flip Ordering.eq p = refl
then-flip Ordering.gt p = refl

compare-flip : (s t : String) → compare t s ≡ flip (compare s t)
unfolding flip
compare-flip String.[] String.[] = refl
compare-flip String.[] (String.◌∷◌ d t) =
    (λ i. clauses.cons-nil d t i) ∙ ap flip (sym (λ i. clauses.nil-cons d t i))
compare-flip (String.◌∷◌ c s) String.[] =
    (λ i. clauses.nil-cons c s i) ∙ ap flip (sym (λ i. clauses.cons-nil c s i))
compare-flip (String.◌∷◌ c s) (String.◌∷◌ d t) =
    (λ i. clauses.cons-cons d c t s i)
    ∙ ap (λ o. String.then o (compare t s)) (compare_nat-flip (code c) (code d))
    ∙ ap (String.then (flip (compare_nat (code c) (code d)))) (compare-flip s t)
    ∙ then-flip (compare_nat (code c) (code d)) (compare s t)
    ∙ ap flip (sym (λ i. clauses.cons-cons c d s t i))

less_asym :
    (o p : Ordering)
    → p ≡ flip o
    → elim o [ Ordering.lt ↦ true | _ ↦ false ] ≡ true
    → elim p [ Ordering.lt ↦ true | _ ↦ false ] ≡ false
unfolding flip
less_asym Ordering.lt Ordering.lt e h = cc e
less_asym Ordering.lt Ordering.eq e h = refl
less_asym Ordering.lt Ordering.gt e h = refl
less_asym Ordering.eq p e h = absurd (cc h)
less_asym Ordering.gt p e h = absurd (cc h)

pub text_ltb_asym : (s t : String) → text_ltb s t ≡ true → text_ltb t s ≡ false
text_ltb_asym s t h = less_asym (compare s t) (compare t s) (compare-flip s t) h
