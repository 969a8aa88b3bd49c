-- ===== src/MeshCollector/Views/Shown.antt =====
-- What a fleet view and a trace view show, against the store.
use benzene_go.Prelude.{
  ℕ, String, refl, sym, ap, subst, true, false, Option, none, some, List, [], arith, eq_iff, length,
  sum_by, sum_by-append, sort_by, sum_by-sort_by, IsSorted, sort_by-IsSorted, text_ltb_asym, ◌+◌,
  ◌≡◌, ◌∙◌, ◌∷◌, if◌then◌else◌, ◌==◌, string_eq, nat_eq,
}
use benzene_go.Maps.{Map, lookup, insert, total, weight, total-insert, lookup-insert_self}
use benzene_go.Mesh.Exporter.{
  IssueBatch, IssueOccurrence, record_occurrences, flush, snapshot_issue_batch,
}
use benzene_go.Mesh.Delivery.{add_issues-flush}
use benzene_go.MeshCollector.Spans.{TraceEvent}
use benzene_go.MeshCollector.State.{
  IssueState, ServiceState, EventBody, CollectorStore, ensure_service,
}
use benzene_go.MeshCollector.Merging.{add_issues, merge_issues}
use benzene_go.MeshCollector.Merging.Conserved.{Grown, issue_count, issues_at}
use benzene_go.MeshCollector.Views.{
  IssueView, issue_before, issue_views, all_issue_views, fleet_issues, events_of, started_before,
  trace_view, query_trace,
}

abbrev pub view_count : IssueView → ℕ
view_count view = view.issue.count

abbrev pub service_issues : ServiceState → ℕ
service_issues state = total issue_count state.issues

issue_views-count :
    (service : String) (issues : Map String IssueState)
    → sum_by view_count (issue_views service issues) ≡ total issue_count issues
unfolding issue_views sum_by total
issue_views-count service [] = refl
issue_views-count service ((fingerprint, issue) ∷ issues) =
    omega (arith, issue_views-count service issues)

all_issue_views-count :
    (services : Map String ServiceState)
    → sum_by view_count (all_issue_views services) ≡ total service_issues services
unfolding all_issue_views sum_by total
all_issue_views-count [] = refl
all_issue_views-count ((name, state) ∷ services) = omega (
  arith,
  sum_by-append view_count (issue_views name state.issues) (all_issue_views services),
  issue_views-count name state.issues,
  all_issue_views-count services,
)

pub fleet_issues-count :
    (s : CollectorStore) → sum_by view_count (fleet_issues s) ≡ total service_issues s.services
unfolding fleet_issues
fleet_issues-count s =
    sum_by-sort_by issue_before view_count (all_issue_views s.services)
    ∙ all_issue_views-count s.services

issue_before-asym : (a b : IssueView) → issue_before a b ≡ true → issue_before b a ≡ false
issue_before-asym a b h = ground (
  arith,
  text_ltb_asym a.service b.service,
  text_ltb_asym a.fingerprint b.fingerprint,
  eq_iff a.service b.service,
  eq_iff b.service a.service,
)

service_issues-weight :
    (found : Option ServiceState)
    → weight service_issues found ≡ service_issues (ensure_service found)
unfolding ensure_service total
service_issues-weight none = refl
service_issues-weight (some state) = refl

add_issues-total :
    (now : ℕ) (batch : IssueBatch) (s : CollectorStore)
    → let after = (add_issues now batch s).1 in
      total service_issues after.services + total issue_count (issues_at batch.service s)
      ≡ total service_issues s.services + total issue_count (issues_at batch.service after)
unfolding add_issues
add_issues-total now batch s =
    let state : ServiceState = record (ensure_service (lookup batch.service s.services)) {
      last_seen = now;
      issues_feed_seen = true;
      issues = (merge_issues batch.issues (issues_at batch.service s)).1;
    } in
    let after = insert batch.service state s.services in
    omega (
      arith,
      total-insert service_issues batch.service state s.services,
      service_issues-weight (lookup batch.service s.services),
      ap (weight service_issues) (lookup-insert_self batch.service state s.services),
      service_issues-weight (lookup batch.service after),
    )

-- The sums over one service and over all grow by as much.
grown_shown :
    {all all' : ℕ} (shown shown' n here here' : ℕ)
    → shown ≡ all
    → shown' ≡ all'
    → all' + here ≡ all + here'
    → Grown here n here'
    → Grown shown n shown'
grown_shown shown shown' n here here' before after same g = record {
  modulo = omega (arith, before, after, same, g.modulo);
  at_most = omega (arith, before, after, same, g.at_most);
}

-- With a fingerprint hash that is never empty: after the failures that an exporter with nothing
-- pending recorded and flushed reached the collector, the issues of the fleet view are sorted by
-- service and fingerprint, and the sum of their counts is that of before and the number of those
-- failures: modulo 2^64, and no more than that, so exactly that where it is below 2^64.
pub fleet_issues-flush :
    (hash : String → String) (now : ℕ) (service : String) (os : List IssueOccurrence)
    (s : CollectorStore)
    → ((text : String) → (hash text == "") ≡ false)
    → let after = (add_issues now (flush service (record_occurrences hash os [])).0 s).1 in
      IsSorted issue_before (fleet_issues after)
      × Grown
          (sum_by view_count (fleet_issues s))
          (length os)
          (sum_by view_count (fleet_issues after))
unfolding flush snapshot_issue_batch
fleet_issues-flush hash now service os s never =
    let batch = (flush service (record_occurrences hash os [])).0 in
    let after = (add_issues now batch s).1 in
    (
      unfold fleet_issues in
          sort_by-IsSorted issue_before issue_before-asym (all_issue_views after.services),
      grown_shown _ _ _ _ _ (fleet_issues-count s) (fleet_issues-count after)
          (add_issues-total now batch s) (add_issues-flush hash now service os s never).1,
    )

-- A trace view has exactly the events of the ring with the trace, by the time when they started.
events_of-count :
    (p : TraceEvent EventBody → ℕ) (trace_id : String) (ring : List (TraceEvent EventBody))
    → sum_by p (events_of trace_id ring)
      ≡ sum_by (λ event. if event.rest.trace_id == trace_id then p event else 0) ring
unfolding events_of sum_by
events_of-count p trace_id [] = refl
events_of-count p trace_id (event ∷ ring) = ground (arith, events_of-count p trace_id ring)

started_before-asym :
    (a b : TraceEvent EventBody) → started_before a b ≡ true → started_before b a ≡ false
started_before-asym a b h = ground (arith, h)

trace_view-shown :
    (events view : List (TraceEvent EventBody))
    → trace_view events ≡ some view
    → IsSorted started_before view
      × ((p : TraceEvent EventBody → ℕ) → sum_by p view ≡ sum_by p events)
unfolding trace_view
trace_view-shown [] view h = absurd (cc h)
trace_view-shown (event ∷ events) view h =
    let same : sort_by started_before (event ∷ events) ≡ view = cc h in
    (
      subst (IsSorted started_before) same
          (sort_by-IsSorted started_before started_before-asym (event ∷ events)),
      λ p. ap (sum_by p) (sym same) ∙ sum_by-sort_by started_before p (event ∷ events),
    )

-- A trace view lists the events of the ring that have the trace, each as often as it is there (by
-- every weight of events), sorted by the time when they started.
pub query_trace-shown :
    (trace_id : String) (s : CollectorStore) (view : List (TraceEvent EventBody))
    → query_trace trace_id s ≡ some view
    → IsSorted started_before view
      × ((p : TraceEvent EventBody → ℕ)
          → sum_by p view
            ≡ sum_by (λ event. if event.rest.trace_id == trace_id then p event else 0) s.spans.ring)
unfolding query_trace
query_trace-shown trace_id s view h =
    let (sorted, sums) = trace_view-shown (events_of trace_id s.spans.ring) view h in
    (sorted, λ p. sums p ∙ events_of-count p trace_id s.spans.ring)
