-- ===== src/MeshCollector/Merging/Conserved.antt =====
-- No failure is lost or counted twice when a batch of issues is merged.
use benzene_go.Prelude.{
  ℕ, String, refl, sym, ap, subst, inl, inr, true, false, not, Option, none, some, List, [], arith,
  eq_iff, Bool-cases, sum_by, ◌+◌, ◌≤◌, ◌≡◌, ◌&&◌, ◌∷◌, if◌then◌else◌, ◌==◌, string_eq, nat_eq,
}
use benzene_go.Maps.{
  Map, lookup, insert, total, weight, total-insert, lookup-insert, lookup-insert_self,
}
use benzene_go.Mesh.Exporter.{Issue, IssueBatch}
use benzene_go.MeshCollector.State.{IssueState, CollectorStore, ensure_service}
use benzene_go.MeshCollector.Merging.{
  new_issue, merged_or_new, merged_with, merge_issues, add_issues, int64,
}

abbrev pub issue_count : IssueState → ℕ
issue_count issue = issue.count

-- The count of one fingerprint, and of all.
abbrev pub count_of : String → Map String IssueState → ℕ
count_of fingerprint issues = weight issue_count (lookup fingerprint issues)

abbrev pub issues_at : String → CollectorStore → Map String IssueState
issues_at name s = (ensure_service (lookup name s.services)).issues

-- A sum of counts after `added` was counted: modulo 2^64 it is what was expected, and it is no more;
-- so it is exactly that where nothing wraps around.
pub record Grown (before added after : ℕ) : Type 0 where
  pub modulo : int64 after ≡ int64 (before + added)
  pub at_most : after ≤ before + added

grown_none : (before : ℕ) → Grown before 0 before
grown_none before = record { modulo = omega arith; at_most = omega arith }

grown_twice :
    (before m between n after : ℕ)
    → Grown before m between
    → Grown between n after
    → Grown before (m + n) after
grown_twice before m between n after g h = record {
  modulo = omega (arith, g.modulo, h.modulo);
  at_most = omega (arith, g.at_most, h.at_most);
}

-- What an entry of a batch adds: to the number of accepted entries, to a fingerprint, to all counts.
abbrev pub valid : Issue → ℕ
valid issue = if issue.fingerprint == "" then 0 else 1

abbrev pub valid_count : Issue → ℕ
valid_count issue = if issue.fingerprint == "" then 0 else issue.count

abbrev pub delta_of : String → Issue → ℕ
delta_of fingerprint issue =
    if not (issue.fingerprint == "") && issue.fingerprint == fingerprint then issue.count else 0

pub weight-merged_or_new :
    (found : Option IssueState) → weight issue_count found ≡ (merged_or_new found).count
unfolding merged_or_new new_issue
weight-merged_or_new none = refl
weight-merged_or_new (some issue) = refl

merged_with-count :
    (issue : Issue) (issues : Map String IssueState)
    → (merged_with issue (merged_or_new (lookup issue.fingerprint issues))).count
      ≡ int64 (count_of issue.fingerprint issues + issue.count)
unfolding merged_with
merged_with-count issue issues =
    omega (arith, weight-merged_or_new (lookup issue.fingerprint issues))

count_of-insert :
    (issue : Issue) (fingerprint : String) (new : IssueState) (issues : Map String IssueState)
    → new.count ≡ int64 (count_of issue.fingerprint issues + issue.count)
    → Grown
        (count_of fingerprint issues)
        (if issue.fingerprint == fingerprint then issue.count else 0)
        (count_of fingerprint (insert issue.fingerprint new issues))
count_of-insert issue fingerprint new issues h =
    elim (Bool-cases (issue.fingerprint == fingerprint)) [
      | inr other ↦ rw lookup-insert (rw other (grown_none (count_of fingerprint issues)))
      | inl same ↦
          let at_same : count_of issue.fingerprint issues ≡ count_of fingerprint issues =
            ap (λ name. count_of name issues) ((eq_iff issue.fingerprint fingerprint).0 same) in
          rw lookup-insert (
            rw same
              (record { modulo = omega (arith, h, at_same); at_most = omega (arith, h, at_same) }))
    ]

merge_issues-accepted_eq :
    (batch : List Issue) (issues : Map String IssueState)
    → (merge_issues batch issues).0 ≡ sum_by valid batch
unfolding merge_issues sum_by
merge_issues-accepted_eq [] issues = refl
merge_issues-accepted_eq (issue ∷ batch) issues = ground (
  arith,
  merge_issues-accepted_eq batch issues,
  merge_issues-accepted_eq batch (
      insert issue.fingerprint (merged_with issue (merged_or_new (lookup issue.fingerprint issues)))
        issues),
)

merge_issues-count_of :
    (fingerprint : String) (batch : List Issue) (issues : Map String IssueState)
    → Grown
        (count_of fingerprint issues)
        (sum_by (delta_of fingerprint) batch)
        (count_of fingerprint (merge_issues batch issues).1)
unfolding merge_issues sum_by
merge_issues-count_of fingerprint [] issues = grown_none (count_of fingerprint issues)
merge_issues-count_of fingerprint (issue ∷ batch) issues =
    let new = merged_with issue (merged_or_new (lookup issue.fingerprint issues)) in
    elim (Bool-cases (issue.fingerprint == "")) [
      | inl invalid ↦
          rw invalid
            (grown_twice _ 0 _ _ _ (grown_none _) (merge_issues-count_of fingerprint batch issues))
      | inr valid ↦ rw valid (
          grown_twice _ _ _ _ _
            (count_of-insert issue fingerprint new issues (merged_with-count issue issues))
            (merge_issues-count_of fingerprint batch (insert issue.fingerprint new issues)))
    ]

merge_issues-total :
    (batch : List Issue) (issues : Map String IssueState)
    → Grown
        (total issue_count issues)
        (sum_by valid_count batch)
        (total issue_count (merge_issues batch issues).1)
unfolding merge_issues sum_by
merge_issues-total [] issues = grown_none (total issue_count issues)
merge_issues-total (issue ∷ batch) issues =
    let new = merged_with issue (merged_or_new (lookup issue.fingerprint issues)) in
    let sums = total-insert issue_count issue.fingerprint new issues in
    let counted = merged_with-count issue issues in
    elim (Bool-cases (issue.fingerprint == "")) [
      | inl invalid ↦
          rw invalid (grown_twice _ 0 _ _ _ (grown_none _) (merge_issues-total batch issues))
      | inr valid ↦ rw valid (
          grown_twice _ _ _ _ _
            (record {
              modulo = omega (arith, sums, counted);
              at_most = omega (arith, sums, counted);
            })
            (merge_issues-total batch (insert issue.fingerprint new issues)))
    ]

-- What is true of a store and the number of accepted entries after a batch.
pub record IsMerged (batch : IssueBatch) (before : CollectorStore) (after : ℕ × CollectorStore)
    : Type 0 where
  pub accepted_eq : after.0 ≡ sum_by valid batch.issues
  pub counted :
      (fingerprint : String)
      → Grown
          (count_of fingerprint (issues_at batch.service before))
          (sum_by (delta_of fingerprint) batch.issues)
          (count_of fingerprint (issues_at batch.service after.1))
  pub conserved :
      Grown
        (total issue_count (issues_at batch.service before))
        (sum_by valid_count batch.issues)
        (total issue_count (issues_at batch.service after.1))
  pub feed_live : (ensure_service (lookup batch.service after.1.services)).issues_feed_seen ≡ true
  pub others :
      (name : String)
      → (batch.service == name) ≡ false
      → lookup name after.1.services ≡ lookup name before.services

pub add_issues-services :
    (now : ℕ) (batch : IssueBatch) (s : CollectorStore)
    → lookup batch.service (add_issues now batch s).1.services
      ≡ some (record (ensure_service (lookup batch.service s.services)) {
        last_seen = now;
        issues_feed_seen = true;
        issues = (merge_issues batch.issues (issues_at batch.service s)).1;
      })
unfolding add_issues
add_issues-services now batch s = lookup-insert_self batch.service _ s.services

issues_at-add_issues :
    (now : ℕ) (batch : IssueBatch) (s : CollectorStore)
    → issues_at batch.service (add_issues now batch s).1
      ≡ (merge_issues batch.issues (issues_at batch.service s)).1
unfolding ensure_service
issues_at-add_issues now batch s =
    ap (λ o. (ensure_service o).issues) (add_issues-services now batch s)

-- The collector accepts exactly the entries of a batch that have a fingerprint. For each
-- fingerprint the count that it holds for the service grows by the counts of those entries, and so
-- does the sum of all: modulo 2^64, since an `int64` wraps around, and by no more, so exactly
-- where the sum stays below 2^64. The service's issue feed is marked as seen, and other services
-- stay as they were.
pub add_issues-IsMerged :
    (now : ℕ) (batch : IssueBatch) (s : CollectorStore) → IsMerged batch s (add_issues now batch s)
add_issues-IsMerged now batch s =
    let issues = issues_at batch.service s in
    record {
      accepted_eq = unfold add_issues in merge_issues-accepted_eq batch.issues issues;
      counted = λ fingerprint.
          subst
            (λ m.
              Grown (count_of fingerprint issues) (sum_by (delta_of fingerprint) batch.issues)
                (count_of fingerprint m))
            (sym (issues_at-add_issues now batch s))
            (merge_issues-count_of fingerprint batch.issues issues);
      conserved =
          subst
            (λ m.
              Grown (total issue_count issues) (sum_by valid_count batch.issues)
                (total issue_count m))
            (sym (issues_at-add_issues now batch s)) (merge_issues-total batch.issues issues);
      feed_live =
          unfold ensure_service in
          ap (λ o. (ensure_service o).issues_feed_seen) (add_issues-services now batch s);
      others = λ name other. unfold add_issues in rw lookup-insert (rw other refl);
    }
