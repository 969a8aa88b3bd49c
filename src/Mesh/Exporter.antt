-- ===== src/Mesh/Exporter.antt =====
-- mesh/issues.go, `PushIssueExporter`: the failures that wait for the next flush. Times are numbers,
-- and 0 is Go's zero time; the fingerprint's hash is a parameter.
use benzene_go.Prelude.{
  ℕ, String, Option, none, some, List, [], ltb, int64_ltb, is_some, length, ◌+◌, ◌||◌, ◌∷◌,
  if◌then◌else◌, ◌==◌, string_eq, nat_eq,
}
use benzene_go.Maps.{Map, lookup, insert}
use benzene_go.Status.{Status}
use benzene_go.MeshCollector.Exemplars.{newest_exemplars}
use benzene_go.Mesh.Issues.{
  IssueError, ErrorKey, error_key_eq, key_of, add_count, classify_issue, merge_issue_errors,
  counted_errors,
}
use Prim.Native.String

pub record IssueOccurrence : Type 0 where
  pub service : String
  pub topic : String
  pub version : String
  pub status : Status
  pub exception_type : String
  pub trace_id : String
  pub at : ℕ
  pub errors : List IssueError

pub record PendingIssue : Type 0 where
  pub classification : String
  pub topic : String
  pub version : String
  pub status : Status
  pub exception_type : String
  pub count : ℕ
  pub first_seen : ℕ
  pub last_seen : ℕ
  pub exemplars : List String
  pub errors : Map ErrorKey ℕ

-- `Issue`
pub record Issue : Type 0 where
  pub fingerprint : String
  pub classification : String
  pub service : String
  pub topic : String
  pub version : String
  pub transport : String
  pub status : Status
  pub exception_type : String
  pub count : ℕ
  pub first_seen : ℕ
  pub last_seen : ℕ
  pub exemplar_trace_ids : List String
  pub resolution_hint : String
  pub errors : List IssueError

pub record IssueBatch : Type 0 where
  pub service : String
  pub issues : List Issue

infixr 66 ◌&◌
abbrev ◌&◌ : String → String → String
s & t = String.◌++◌ s t

-- `IssueFingerprint`; `hash` is the hex text of the first 16 bytes of SHA-256.
unfoldable pub issue_fingerprint :
    (String → String) → String → String → String → String → String → String
issue_fingerprint hash service topic version classification discriminator =
    hash (service & "|" & topic & "|" & version & "|" & classification & "|" & discriminator)

abbrev pub max_pending_issue_errors : ℕ
max_pending_issue_errors = 100

-- The loop over the errors of an occurrence: a new pair is dropped once the map is full.
unfoldable pub record_errors : List IssueError → Map ErrorKey ℕ → Map ErrorKey ℕ
unfolding add_count
record_errors [] errors = errors
record_errors (entry ∷ entries) errors = record_errors entries (
    if is_some (lookup (key_of entry) errors) || ltb (length errors) max_pending_issue_errors
    then add_count (key_of entry) (if int64_ltb entry.count 1 then 1 else entry.count) errors
    else errors)

unfoldable pub new_pending : String → IssueOccurrence → PendingIssue
new_pending classification o = record {
  classification = classification;
  topic = o.topic;
  version = o.version;
  status = o.status;
  exception_type = o.exception_type;
  count = 0;
  first_seen = o.at;
  last_seen = 0;
  exemplars = [];
  errors = [];
}

abbrev pub known_or : {A : Type 0} → Option A → A → A
known_or none new = new
known_or (some old) new = old

-- What one more occurrence makes of its pending issue.
unfoldable pub occurred : IssueOccurrence → PendingIssue → PendingIssue
unfolding record_errors newest_exemplars
occurred o issue = record issue {
  count = issue.count + 1;
  last_seen = o.at;
  errors = record_errors o.errors issue.errors;
  exemplars =
      if o.trace_id == ""
      then issue.exemplars
      else newest_exemplars issue.exemplars (o.trace_id ∷ []);
}

module _ (hash : String → String) where
  unfoldable pub fingerprint_of : IssueOccurrence → String
  unfolding issue_fingerprint classify_issue
  fingerprint_of o =
      issue_fingerprint hash o.service o.topic o.version (classify_issue o.status o.exception_type)
        (if o.exception_type == "" then o.status else o.exception_type)

  -- `Record`
  unfoldable pub record_occurrence :
      IssueOccurrence → Map String PendingIssue → Map String PendingIssue
  unfolding fingerprint_of new_pending occurred
  record_occurrence o pending =
      let fingerprint = fingerprint_of o in
      let issue =
        known_or (lookup fingerprint pending)
          (new_pending (classify_issue o.status o.exception_type) o) in
      insert fingerprint (occurred o issue) pending

  unfoldable pub record_occurrences :
      List IssueOccurrence → Map String PendingIssue → Map String PendingIssue
  unfolding record_occurrence
  record_occurrences [] pending = pending
  record_occurrences (o ∷ os) pending = record_occurrences os (record_occurrence o pending)

-- `pendingIssueErrors`
unfoldable pub pending_issue_errors : Map ErrorKey ℕ → List IssueError
unfolding merge_issue_errors counted_errors
pending_issue_errors counts = merge_issue_errors [] (counted_errors counts)

unfoldable pub issue_of : String → String → PendingIssue → Issue
unfolding pending_issue_errors
issue_of service fingerprint issue = record {
  fingerprint = fingerprint;
  classification = issue.classification;
  service = service;
  topic = issue.topic;
  version = issue.version;
  transport = "";
  status = issue.status;
  exception_type = issue.exception_type;
  count = issue.count;
  first_seen = issue.first_seen;
  last_seen = issue.last_seen;
  exemplar_trace_ids = issue.exemplars;
  resolution_hint = "";
  errors = pending_issue_errors issue.errors;
}

unfoldable pub issues_of : String → Map String PendingIssue → List Issue
unfolding issue_of
issues_of service [] = []
issues_of service ((fingerprint, issue) ∷ pending) =
    issue_of service fingerprint issue ∷ issues_of service pending

-- `snapshotIssueBatch`, and `Flush`: the batch to send, and the pending issues after it
unfoldable pub snapshot_issue_batch : String → Map String PendingIssue → IssueBatch
unfolding issues_of
snapshot_issue_batch service pending = record {
  service = service;
  issues = issues_of service pending;
}

unfoldable pub flush : String → Map String PendingIssue → IssueBatch × Map String PendingIssue
unfolding snapshot_issue_batch
flush service pending = (snapshot_issue_batch service pending, [])
