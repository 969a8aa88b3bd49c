-- ===== src/MeshCollector/Merging.antt =====
-- meshd/store.go, `recordDriftIssue` and `addIssues`: how issues merge by their fingerprint. A count
-- is the bits of an `int64`; the wire may hold any.
pub mod Conserved
use benzene_go.Prelude.{
  ℕ, suc, String, true, not, Option, none, some, List, [], ltb, int64, ◌+◌, ◌&&◌, ◌||◌, ◌∷◌,
  if◌then◌else◌, ◌==◌, string_eq, nat_eq,
}
use benzene_go.Maps.{Map, lookup, insert}
use benzene_go.Mesh.Issues.{merge_issue_errors, classification_contract_drift}
use benzene_go.Mesh.Exporter.{Issue, IssueBatch, issue_fingerprint}
use benzene_go.MeshCollector.Exemplars.{newest_exemplars}
use benzene_go.MeshCollector.State.{
  EventBody, IssueState, ServiceState, CollectorStore, update_service, ensure_service,
}

-- &issueState{}
unfoldable pub new_issue : IssueState
new_issue = record {
  classification = "";
  topic = "";
  version = "";
  transport = "";
  status = "";
  exception_type = "";
  count = 0;
  first_seen = 0;
  last_seen = 0;
  exemplar_trace_ids = [];
  resolution_hint = "";
  errors = [];
}

-- merged := service.issues[fingerprint], with a new issue where there is none
unfoldable pub merged_or_new : Option IssueState → IssueState
unfolding new_issue
merged_or_new none = new_issue
merged_or_new (some merged) = merged

-- if at.After(last) { last = at }
abbrev pub latest : ℕ → ℕ → ℕ
latest last at = if ltb last at then at else last

unfoldable pub drifted : EventBody → IssueState → IssueState
unfolding newest_exemplars
drifted event merged = record merged {
  classification = classification_contract_drift;
  topic = event.topic;
  version = event.topic_version;
  status = event.status;
  count = int64 (merged.count + 1);
  first_seen =
      if merged.first_seen == 0
        || (not (event.started_at == 0) && ltb event.started_at merged.first_seen)
      then event.started_at
      else merged.first_seen;
  last_seen = latest merged.last_seen event.started_at;
  exemplar_trace_ids =
      if event.trace_id == ""
      then merged.exemplar_trace_ids
      else newest_exemplars merged.exemplar_trace_ids (event.trace_id ∷ []);
}

unfoldable pub put_drift : String → EventBody → ServiceState → ServiceState
unfolding merged_or_new drifted
put_drift fingerprint event service = record service {
  issues =
      insert fingerprint (drifted event (merged_or_new (lookup fingerprint service.issues)))
        service.issues;
}

-- `recordDriftIssue`
unfoldable pub record_drift_issue :
    (String → String) → String → EventBody → CollectorStore → CollectorStore
unfolding put_drift update_service issue_fingerprint
record_drift_issue hash service event s =
    let fingerprint =
      issue_fingerprint hash service event.topic event.topic_version classification_contract_drift
        event.status in
    record s { services = update_service service (put_drift fingerprint event) s.services }

unfoldable pub merged_with : Issue → IssueState → IssueState
unfolding merge_issue_errors newest_exemplars
merged_with issue merged = record {
  classification = issue.classification;
  topic = issue.topic;
  version = issue.version;
  transport = issue.transport;
  status = issue.status;
  exception_type = issue.exception_type;
  count = int64 (merged.count + issue.count);
  first_seen =
      if not (issue.first_seen == 0)
        && (merged.first_seen == 0 || ltb issue.first_seen merged.first_seen)
      then issue.first_seen
      else merged.first_seen;
  last_seen = latest merged.last_seen issue.last_seen;
  exemplar_trace_ids = newest_exemplars merged.exemplar_trace_ids issue.exemplar_trace_ids;
  resolution_hint = issue.resolution_hint;
  errors = merge_issue_errors merged.errors issue.errors;
}

-- The loop of `addIssues`: how many entries are valid, and the issues after them.
unfoldable pub merge_issues : List Issue → Map String IssueState → ℕ × Map String IssueState
unfolding merged_or_new merged_with
merge_issues [] issues = (0, issues)
merge_issues (issue ∷ batch) issues =
    let merged = merged_with issue (merged_or_new (lookup issue.fingerprint issues)) in
    let skipped = merge_issues batch issues in
    let kept = merge_issues batch (insert issue.fingerprint merged issues) in
    if issue.fingerprint == "" then skipped else (suc kept.0, kept.1)

-- `addIssues`
unfoldable pub add_issues : ℕ → IssueBatch → CollectorStore → ℕ × CollectorStore
unfolding merge_issues update_service
add_issues now batch s =
    let service = ensure_service (lookup batch.service s.services) in
    let result = merge_issues batch.issues service.issues in
    (
      result.0,
      record s {
        services =
            insert batch.service
              (record service { last_seen = now; issues_feed_seen = true; issues = result.1 })
              s.services;
      },
    )
