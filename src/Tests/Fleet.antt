-- ===== src/Tests/Fleet.antt =====
-- What the views show of two failures and of one trace.
use benzene_go.Prelude.{
  ℕ, String, refl, List, [], sum_by, sort_by, IsSorted, ◌≡◌, ◌∷◌, if◌then◌else◌, ◌==◌, string_eq,
  nat_eq,
}
use benzene_go.Status.{is_failure}
use benzene_go.Mesh.Exporter.{record_occurrences, flush}
use benzene_go.MeshCollector.Merging.Conserved.{Grown}
use benzene_go.MeshCollector.State.{CollectorStore, EventBody}
use benzene_go.MeshCollector.Spans.{TraceEvent}
use benzene_go.MeshCollector.Merging.{add_issues}
use benzene_go.MeshCollector.Views.{
  issue_before, fleet_issues, query_trace, started_before, events_of, trace_view,
}
use benzene_go.MeshCollector.Views.Shown.{view_count, fleet_issues-flush, query_trace-shown}
use benzene_go.MeshCollector.Views.Fleet.{summarize}
use benzene_go.MeshCollector.Views.Fleet.Failed.{summarize-failed}
use benzene_go.Tests.Meshed.{sha, pair, collector}

abbrev delivered : CollectorStore
delivered = (add_issues 9 (flush "orders" (record_occurrences sha pair [])).0 collector).1

fleet_issues-flush_example :
    IsSorted issue_before (fleet_issues delivered)
    × Grown
        (sum_by view_count (fleet_issues collector))
        2
        (sum_by view_count (fleet_issues delivered))
fleet_issues-flush_example = fleet_issues-flush sha 9 "orders" pair collector (λ text. refl)

abbrev event_at : ℕ → String → String → TraceEvent EventBody
event_at time trace status = record {
  service = "orders";
  span_id = "s";
  rest = record {
    trace_id = trace;
    parent_span_id = "";
    topic = "orders:create";
    topic_version = "";
    status = status;
    started_at = time;
  };
}

abbrev events : List (TraceEvent EventBody)
events = event_at 5 "t" "timeout" ∷ event_at 4 "u" "ok" ∷ event_at 3 "t" "ok" ∷ []

abbrev traced : CollectorStore
traced = record {
  services = [];
  topics = [];
  spans = record { ring = events; next = 0; span_service = [] };
}

abbrev shown : List (TraceEvent EventBody)
shown = event_at 3 "t" "ok" ∷ event_at 5 "t" "timeout" ∷ []

query_trace-shown_example :
    IsSorted started_before shown
    × ((p : TraceEvent EventBody → ℕ)
        → sum_by p shown
          ≡ sum_by (λ event. if event.rest.trace_id == "t" then p event else 0) events)
unfolding query_trace events_of trace_view sort_by
query_trace-shown_example = query_trace-shown "t" traced shown refl

summarize-failed_example : is_failure (summarize "t" events).status ≡ (summarize "t" events).failed
summarize-failed_example = summarize-failed "t" events
