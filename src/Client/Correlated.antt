-- ===== src/Client/Correlated.antt =====
-- A correlation id is added once and never replaced.
use benzene_go.Prelude.{
  String, refl, inl, inr, Bool, true, false, Option, some, [], arith, Bool-cases, ◌≡◌, ◌∷◌, ◌==◌,
  string_eq, nat_eq,
}
use benzene_go.Maps.{Map, lookup, insert, lookup-insert}
use benzene_go.Client.{has_header, with_correlation_id}

has_header-insert :
    (equal_fold : String → String → Bool) (key id : String) (headers : Map String String)
    → equal_fold key key ≡ true
    → has_header equal_fold key (insert key id headers) ≡ true
unfolding has_header insert
has_header-insert equal_fold key id [] reflexive = rw reflexive refl
has_header-insert equal_fold key id ((name, value) ∷ headers) reflexive =
    elim (Bool-cases (name == key)) [
      | inl same ↦ rw same (rw reflexive refl)
      | inr other ↦ rw other (ground (arith, has_header-insert equal_fold key id headers reflexive))
    ]

-- What a sender with a generator sends always has a correlation id; a second such sender changes
-- nothing, whatever it generates; and no other header is touched.
pub with_correlation_id-once :
    (equal_fold : String → String → Bool) (key id other : String) (generated : Option String)
    (headers : Map String String)
    → equal_fold key key ≡ true
    → let out = with_correlation_id equal_fold key (some id) headers in
      (has_header equal_fold key out ≡ true)
      × (with_correlation_id equal_fold key generated out ≡ out)
      × ((key == other) ≡ false → lookup other out ≡ lookup other headers)
unfolding with_correlation_id
with_correlation_id-once equal_fold key id other generated headers reflexive =
    elim (Bool-cases (has_header equal_fold key headers)) [
      | inl there ↦ rw there (there, rw there refl, λ differs. refl)
      | inr missing ↦
          let added = has_header-insert equal_fold key id headers reflexive in
          rw missing (added, rw added refl, λ differs. rw lookup-insert (rw differs refl))
    ]
