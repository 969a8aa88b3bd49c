-- ===== src/Mesh/Delivery.antt =====
-- From the exporter of a service to the collector: what is recorded there arrives here.
use benzene_go.Prelude.{
  ℕ, String, refl, subst, false, Option, none, some, List, [], arith, length, All, sum_by, ◌+◌, ◌≡◌,
  ◌∙◌, ◌∷◌, ◌==◌, string_eq, nat_eq,
}
use benzene_go.Maps.{Map, lookup, total, weight, total-insert, insert-All}
use benzene_go.Mesh.Issues.{classify_issue}
use benzene_go.Mesh.Exporter.{
  IssueOccurrence, PendingIssue, new_pending, known_or, occurred, fingerprint_of, issue_fingerprint,
  record_occurrence, record_occurrences, issue_of, issues_of, snapshot_issue_batch, flush,
}
use benzene_go.MeshCollector.State.{CollectorStore}
use benzene_go.MeshCollector.Merging.{add_issues}
use benzene_go.MeshCollector.Merging.Conserved.{
  Grown, issue_count, issues_at, valid, valid_count, add_issues-IsMerged,
}

abbrev pub pending_count : PendingIssue → ℕ
pending_count issue = issue.count

-- Every pending issue stands under a fingerprint that is not empty.
abbrev pub Fingerprinted : Map String PendingIssue → Type 0
Fingerprinted pending = All (λ entry. (entry.0 == "") ≡ false) pending

occurred-count :
    (o : IssueOccurrence) (classification : String) (found : Option PendingIssue)
    → pending_count (occurred o (known_or found (new_pending classification o)))
      ≡ weight pending_count found + 1
unfolding occurred new_pending
occurred-count o classification none = omega arith
occurred-count o classification (some issue) = refl

module _ (hash : String → String) where
  record_occurrence-total :
      (o : IssueOccurrence) (pending : Map String PendingIssue)
      → total pending_count (record_occurrence hash o pending) ≡ total pending_count pending + 1
  unfolding record_occurrence
  record_occurrence-total o pending =
      let classification = classify_issue o.status o.exception_type in
      let fingerprint = fingerprint_of hash o in
      let found = lookup fingerprint pending in
      omega (
        arith,
        total-insert pending_count fingerprint
            (occurred o (known_or found (new_pending classification o))) pending,
        occurred-count o classification found,
      )

  pub record_occurrences-total :
      (os : List IssueOccurrence) (pending : Map String PendingIssue)
      → total pending_count (record_occurrences hash os pending)
        ≡ total pending_count pending + length os
  unfolding record_occurrences
  record_occurrences-total [] pending = omega arith
  record_occurrences-total (o ∷ os) pending = omega (
    arith,
    record_occurrences-total os (record_occurrence hash o pending),
    record_occurrence-total o pending,
  )

  record_occurrences-Fingerprinted :
      ((text : String) → (hash text == "") ≡ false)
      → (os : List IssueOccurrence) (pending : Map String PendingIssue) → Fingerprinted pending
      → Fingerprinted (record_occurrences hash os pending)
  unfolding record_occurrences record_occurrence fingerprint_of issue_fingerprint
  record_occurrences-Fingerprinted never [] pending h = h
  record_occurrences-Fingerprinted never (o ∷ os) pending h =
      record_occurrences-Fingerprinted never os (record_occurrence hash o pending) (
        insert-All (λ fingerprint issue. (fingerprint == "") ≡ false) (fingerprint_of hash o) _
          pending (never _) h)

-- A batch has the counts of the pending issues, and an entry for each.
issues_of-valid_count :
    (service : String) (pending : Map String PendingIssue)
    → Fingerprinted pending
    → sum_by valid_count (issues_of service pending) ≡ total pending_count pending
unfolding issues_of issue_of sum_by total
issues_of-valid_count service [] h = refl
issues_of-valid_count service ((fingerprint, issue) ∷ pending) h =
    rw h.0 (omega (arith, issues_of-valid_count service pending h.1))

issues_of-valid :
    (service : String) (pending : Map String PendingIssue)
    → Fingerprinted pending
    → sum_by valid (issues_of service pending) ≡ length pending
unfolding issues_of issue_of sum_by
issues_of-valid service [] h = refl
issues_of-valid service ((fingerprint, issue) ∷ pending) h =
    rw h.0 (omega (arith, issues_of-valid service pending h.1))

-- With a fingerprint hash that is never empty: the failures that an exporter with nothing pending
-- records and flushes make a batch of which the collector accepts every entry, one for each
-- pending issue, and which adds the number of those failures to the sum of the counts that the
-- collector holds for the service, as far as that is below 2^64, and else modulo 2^64.
pub add_issues-flush :
    (hash : String → String) (now : ℕ) (service : String) (os : List IssueOccurrence)
    (s : CollectorStore)
    → ((text : String) → (hash text == "") ≡ false)
    → let pending = record_occurrences hash os [] in
      let result = add_issues now (flush service pending).0 s in
      (result.0 ≡ length pending)
      × Grown
          (total issue_count (issues_at service s))
          (length os)
          (total issue_count (issues_at service result.1))
unfolding flush snapshot_issue_batch total
add_issues-flush hash now service os s never =
    let pending = record_occurrences hash os [] in
    let ready = record_occurrences-Fingerprinted hash never os [] tt in
    let merged = add_issues-IsMerged now (snapshot_issue_batch service pending) s in
    (
      merged.accepted_eq ∙ issues_of-valid service pending ready,
      subst
          (λ n. Grown (total issue_count (issues_at service s)) n (
            total issue_count
              (issues_at service (add_issues now (snapshot_issue_batch service pending) s).1)))
          (issues_of-valid_count service pending ready
            ∙ record_occurrences-total hash os []
            ∙ omega arith)
          merged.conserved,
    )
