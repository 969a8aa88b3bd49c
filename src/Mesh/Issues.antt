-- ===== src/Mesh/Issues.antt =====
-- mesh/issues.go: the classes of failures, and the merge of their error details. A count is the
-- bits of an `int64`, since a sum of counts from the wire may wrap around.
use benzene_go.Prelude.{
  ℕ, String, Bool, true, not, Option, none, some, List, [], arith, eq_iff, int64, int64_ltb, Eq,
  contains, switch, take, sort_by, text_ltb, ◌+◌, ◌≡◌, ◌↔◌, ◌&&◌, ◌∷◌, if◌then◌else◌, ◌==◌,
  string_eq, nat_eq,
}
use benzene_go.Maps.{Map, lookup, insert}
use benzene_go.Status.{
  Status, status_bad_request, status_validation_error, status_not_found, status_unauthorized,
  status_forbidden, status_not_implemented, status_service_unavailable, status_timeout,
  status_too_many_requests, status_unexpected_error, is_failure,
}
use benzene_go.Wire.{ProblemError}
use benzene_go.Result.{ResultInfo, problems_of}

abbrev pub classification_validation : String
classification_validation = "validation"

abbrev pub classification_exception : String
classification_exception = "exception"

abbrev pub classification_config_wiring : String
classification_config_wiring = "config-wiring"

abbrev pub classification_dependency : String
classification_dependency = "dependency"

abbrev pub classification_unclassified : String
classification_unclassified = "unclassified"

abbrev pub classification_contract_drift : String
classification_contract_drift = "contract-drift"

-- `ClassifyIssue`
unfoldable pub classify_issue : Status → String → String
classify_issue status exception_type =
    if contains (status_bad_request ∷ status_validation_error ∷ []) status
    then classification_validation
    else if not (exception_type == "")
    then classification_exception
    else switch status
        ((
          status_not_found ∷ status_unauthorized ∷ status_forbidden ∷ status_not_implemented ∷ [],
          classification_config_wiring,
        )
          ∷ (
            status_service_unavailable ∷ status_timeout ∷ status_too_many_requests ∷ [],
            classification_dependency,
          )
          ∷ (status_unexpected_error ∷ [], classification_exception)
          ∷ [])
        (if status == "" then classification_config_wiring else classification_unclassified)

pub record IssueError : Type 0 where
  pub field : String
  pub code : String
  pub count : ℕ

-- The key under which errors are counted, and `IssueError` as a key with no count.
pub record ErrorKey : Type 0 where
  pub field : String
  pub code : String

abbrev pub error_key_beq : ErrorKey → ErrorKey → Bool
error_key_beq a b = a.field == b.field && a.code == b.code

pub error_key_beq_iff : (a b : ErrorKey) → (error_key_beq a b ≡ true) ↔ (a ≡ b)
error_key_beq_iff a b = ground (arith, eq_iff a.field b.field, eq_iff a.code b.code)

instance abbrev pub error_key_eq : Eq ErrorKey
error_key_eq = record { equal = error_key_beq; equal_iff = error_key_beq_iff }

abbrev pub key_of : IssueError → ErrorKey
key_of e = record { field = e.field; code = e.code }

abbrev pub count_at : Option ℕ → ℕ
count_at none = 0
count_at (some n) = n

-- counts[key] += entry.Count
unfoldable pub add_count : ErrorKey → ℕ → Map ErrorKey ℕ → Map ErrorKey ℕ
add_count key n counts = insert key (int64 (count_at (lookup key counts) + n)) counts

unfoldable pub count_errors : List IssueError → Map ErrorKey ℕ → Map ErrorKey ℕ
unfolding add_count
count_errors [] counts = counts
count_errors (entry ∷ entries) counts =
    count_errors entries (add_count (key_of entry) entry.count counts)

unfoldable pub counted_errors : Map ErrorKey ℕ → List IssueError
counted_errors [] = []
counted_errors ((k, n) ∷ counts) =
    record { field = k.field; code = k.code; count = n } ∷ counted_errors counts

-- The order of the merged list: the highest count first, then by field and code.
unfoldable pub comes_before : IssueError → IssueError → Bool
comes_before a b =
    if not (a.count == b.count)
    then int64_ltb b.count a.count
    else if not (a.field == b.field)
    then text_ltb a.field b.field
    else text_ltb a.code b.code

abbrev pub max_issue_errors : ℕ
max_issue_errors = 10

-- `MergeIssueErrors`
unfoldable pub merge_issue_errors : List IssueError → List IssueError → List IssueError
unfolding count_errors counted_errors
merge_issue_errors existing delta =
    take max_issue_errors
      (sort_by comes_before (counted_errors (count_errors delta (count_errors existing []))))

unfoldable pub detail_of : List ProblemError → List IssueError
detail_of [] = []
detail_of (p ∷ problems) =
    let rest = detail_of problems in
    if p.field == "" && p.code == ""
    then rest
    else record { field = p.field; code = p.code; count = 1 } ∷ rest

module _ {V : Type 0} where
  -- `issueWorthRecording`
  unfoldable pub issue_worth_recording : Option (ResultInfo V) → Bool
  issue_worth_recording none = true
  issue_worth_recording (some r) = elim r.result_is_successful [
    | some b ↦ not b
    | none ↦ is_failure r.result_status
  ]

  -- `issueErrorsOf`
  unfoldable pub issue_errors_of : Option (ResultInfo V) → List IssueError
  unfolding detail_of problems_of
  issue_errors_of none = []
  issue_errors_of (some r) = detail_of (problems_of r)
