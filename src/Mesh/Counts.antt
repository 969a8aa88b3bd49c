-- ===== src/Mesh/Counts.antt =====
-- Which error details a merge keeps, and how many an exporter holds.
use benzene_go.Prelude.{
  ℕ, refl, sym, ap, subst, inl, inr, true, false, Option, none, some, List, [], arith, eq_iff,
  int64, int64_ltb, Bool-cases, is_some, length, sum_by, drop, take-drop, drop-full, length-take,
  sort_by, sum_by-sort_by, IsSorted, sort_by-IsSorted, text_ltb_asym, ◌+◌, ◌≤◌, ◌≡◌, ◌⊎◌, ◌∙◌, ◌∷◌,
  ◌++◌, ◌==◌, if◌then◌else◌, string_eq, nat_eq,
}
use benzene_go.Maps.{Map, lookup, weight, total_at, total_at-insert, lookup-insert, length-insert}
use benzene_go.Mesh.Issues.{
  IssueError, ErrorKey, error_key_eq, key_of, count_at, add_count, count_errors, counted_errors,
  comes_before, max_issue_errors, merge_issue_errors,
}
use benzene_go.Mesh.Exporter.{max_pending_issue_errors, record_errors}

abbrev each : ℕ → ℕ
each n = n

abbrev one : ℕ → ℕ
one n = 1

-- How often a pair of a field and a code is in a list, and with which counts.
abbrev pub times : ErrorKey → IssueError → ℕ
times k e = if key_of e == k then 1 else 0

abbrev pub count_for : ErrorKey → IssueError → ℕ
count_for k e = if key_of e == k then e.count else 0

-- A map of counts holds the count `c` of a pair that was seen `n` times.
record Agrees (k : ErrorKey) (m : Map ErrorKey ℕ) (c n : ℕ) : Type 0 where
  counted : total_at each k m ≡ int64 c
  once : total_at one k m ≡ (if n == 0 then 0 else 1)
  held : weight each (lookup k m) ≡ int64 c
  known : weight one (lookup k m) ≡ (if n == 0 then 0 else 1)

weight-count_at : (o : Option ℕ) → weight each o ≡ count_at o
weight-count_at none = refl
weight-count_at (some n) = refl

add_count-Agrees :
    (k j : ErrorKey) (v : ℕ) (m : Map ErrorKey ℕ) (c n : ℕ)
    → Agrees k m c n
    → Agrees k (add_count j v m) (c + (if j == k then v else 0)) (n + (if j == k then 1 else 0))
unfolding add_count
add_count-Agrees k j v m c n a =
    let new = int64 (count_at (lookup j m) + v) in
    let sums = total_at-insert each k j new m in
    let seen = total_at-insert one k j new m in
    elim (Bool-cases (j == k)) [
      | inr other ↦ record {
        counted = ground (arith, sums, other, a.counted);
        once = ground (arith, seen, other, a.once);
        held = rw lookup-insert (rw other (omega (arith, a.held)));
        known = rw lookup-insert (rw other (ground (arith, a.known)));
      }
      | inl same ↦
          let at_k : count_at (lookup j m) ≡ int64 c =
            ap (λ i. count_at (lookup i m)) ((error_key_eq.equal_iff j k).0 same)
            ∙ sym (weight-count_at (lookup k m))
            ∙ a.held in
          record {
            counted = ground (arith, sums, same, a.counted, a.held, at_k);
            once = ground (arith, seen, same, a.once, a.known);
            held = rw lookup-insert (rw same (omega (arith, at_k)));
            known = rw lookup-insert (rw same (ground arith));
          }
    ]

-- The same counts in another form.
same_counts :
    (k : ErrorKey) (m : Map ErrorKey ℕ) (c n c' n' : ℕ)
    → c ≡ c'
    → n ≡ n'
    → Agrees k m c n
    → Agrees k m c' n'
same_counts k m c n c' n' hc hn a = subst (Agrees k m c') hn (subst (λ i. Agrees k m i n) hc a)

count_errors-Agrees :
    (k : ErrorKey) (entries : List IssueError) (m : Map ErrorKey ℕ) (c n : ℕ)
    → Agrees k m c n
    → Agrees k
        (count_errors entries m)
        (c + sum_by (count_for k) entries)
        (n + sum_by (times k) entries)
unfolding count_errors sum_by
count_errors-Agrees k [] m c n a = same_counts k m c n (c + 0) (n + 0) (omega arith) (omega arith) a
count_errors-Agrees k (entry ∷ entries) m c n a =
    same_counts k _ _ _ _ _ (omega arith) (omega arith) (
      count_errors-Agrees k entries (add_count (key_of entry) entry.count m) _ _
        (add_count-Agrees k (key_of entry) entry.count m c n a))

nothing_counted :
    (k : ErrorKey) (existing : List IssueError)
    → Agrees k
        (count_errors existing [])
        (sum_by (count_for k) existing)
        (sum_by (times k) existing)
nothing_counted k existing = same_counts k _ _ _ _ _ (omega arith) (omega arith) (
    count_errors-Agrees k existing [] 0 0
      (unfold total_at lookup in record { counted = refl; once = refl; held = refl; known = refl }))

counted_errors-count :
    (k : ErrorKey) (m : Map ErrorKey ℕ)
    → sum_by (count_for k) (counted_errors m) ≡ total_at each k m
unfolding sum_by counted_errors total_at
counted_errors-count k [] = refl
counted_errors-count k ((j, v) ∷ m) = omega (arith, counted_errors-count k m)

counted_errors-times :
    (k : ErrorKey) (m : Map ErrorKey ℕ) → sum_by (times k) (counted_errors m) ≡ total_at one k m
unfolding sum_by counted_errors total_at
counted_errors-times k [] = refl
counted_errors-times k ((j, v) ∷ m) = omega (arith, counted_errors-times k m)

-- The details of two reports, merged: with what was dropped they hold every pair of the two lists
-- once, with the sum of its counts as an `int64`, in the order of the signed counts and then of the
-- pairs; nothing was dropped unless ten pairs stayed.
pub record IsMerge (existing delta merged : List IssueError) : Type 0 where
  pub dropped : List IssueError
  pub bounded : length merged ≤ 10
  pub full : (dropped ≡ []) ⊎ (length merged ≡ 10)
  pub ordered : IsSorted comes_before (merged ++ dropped)
  pub once :
      (k : ErrorKey)
      → sum_by (times k) (merged ++ dropped)
        ≡ (if sum_by (times k) existing + sum_by (times k) delta == 0 then 0 else 1)
  pub counted :
      (k : ErrorKey)
      → sum_by (count_for k) (merged ++ dropped)
        ≡ int64 (sum_by (count_for k) existing + sum_by (count_for k) delta)

comes_before-asym : (a b : IssueError) → comes_before a b ≡ true → comes_before b a ≡ false
unfolding comes_before
comes_before-asym a b h = ground (
  arith,
  text_ltb_asym a.field b.field,
  text_ltb_asym a.code b.code,
  eq_iff a.field b.field,
  eq_iff b.field a.field,
)

-- Merging two lists of error details gives at most ten pairs. With the pairs that were dropped, of
-- which there are none unless ten stayed, they are the pairs of the two lists, each once and with
-- the sum of all its counts, as an `int64` that may wrap around; and they are sorted by count, the
-- highest signed count first, then by field and code, the dropped ones behind all others.
pub merge_issue_errors-IsMerge :
    (existing delta : List IssueError) → IsMerge existing delta (merge_issue_errors existing delta)
unfolding merge_issue_errors
merge_issue_errors-IsMerge existing delta =
    let counts = count_errors delta (count_errors existing []) in
    let sorted = sort_by comes_before (counted_errors counts) in
    let whole = take-drop max_issue_errors sorted in
    let agrees : (k : ErrorKey)
        → Agrees k counts (sum_by (count_for k) existing + sum_by (count_for k) delta)
            (sum_by (times k) existing + sum_by (times k) delta) =
      λ k. count_errors-Agrees k delta _ _ _ (nothing_counted k existing) in
    record {
      dropped = drop max_issue_errors sorted;
      bounded = length-take max_issue_errors sorted;
      full = drop-full max_issue_errors sorted;
      ordered =
          subst (IsSorted comes_before) (sym whole)
            (sort_by-IsSorted comes_before comes_before-asym (counted_errors counts));
      once = λ k.
          ap (sum_by (times k)) whole
          ∙ sum_by-sort_by comes_before (times k) (counted_errors counts)
          ∙ counted_errors-times k counts
          ∙ (agrees k).once;
      counted = λ k.
          ap (sum_by (count_for k)) whole
          ∙ sum_by-sort_by comes_before (count_for k) (counted_errors counts)
          ∙ counted_errors-count k counts
          ∙ (agrees k).counted;
    }

-- The errors that a pending issue keeps stay below their bound.
length-add_count :
    (key : ErrorKey) (n : ℕ) (m : Map ErrorKey ℕ)
    → length (add_count key n m) ≡ length m + (if is_some (lookup key m) then 0 else 1)
unfolding add_count
length-add_count key n m = length-insert key (int64 (count_at (lookup key m) + n)) m

record_errors-le :
    (entries : List IssueError) (m : Map ErrorKey ℕ)
    → length m ≤ max_pending_issue_errors
    → length (record_errors entries m) ≤ max_pending_issue_errors
unfolding record_errors
record_errors-le [] m h = h
record_errors-le (entry ∷ entries) m h = record_errors-le entries _ (
    ground (
      arith,
      length-add_count (key_of entry) (if int64_ltb entry.count 1 then 1 else entry.count) m,
    ))
