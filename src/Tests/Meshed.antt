-- ===== src/Tests/Meshed.antt =====
-- A service that reports two failures, and a span that goes on to another service.
use benzene_go.Prelude.{
  ℕ, String, refl, Bool, true, false, none, some, List, [], arith, ◌+◌, ◌≡◌, ◌∷◌,
}
use benzene_go.Flow.{Go, ret}
use benzene_go.Mesh.Issues.{IssueError, merge_issue_errors}
use benzene_go.Mesh.Counts.{IsMerge, merge_issue_errors-IsMerge}
use benzene_go.Mesh.Exporter.{IssueBatch, IssueOccurrence, record_occurrences, flush}
use benzene_go.Mesh.Push.{
  Push, PushPhase, Sizes, selecting, draining, closing, ended, new_push, receive_event, flush_batch,
  queued, closed, stopped, drained, emptied, finished, Reach, start, after,
}
use benzene_go.Mesh.Push.Order.{IsFaithful, Reach-IsFaithful}
use benzene_go.Mesh.Trace.{Span, Traced, parse_traceparent, traceparent, all_hex}
use benzene_go.Mesh.Trace.Roundtrip.{parse_traceparent-traceparent}
use benzene_go.Mesh.Observing.{trace_middleware}
use benzene_go.Mesh.Observing.Unchanged.{trace_middleware-observes}
use benzene_go.MeshCollector.State.{CollectorStore, new_store}
use benzene_go.MeshCollector.Merging.{add_issues}
use benzene_go.MeshCollector.Merging.Conserved.{IsMerged, add_issues-IsMerged}
use benzene_go.Pipeline.{Ctx, State, Next, new_invocation}

abbrev pub sha : String → String
sha text = "0f"

abbrev late : IssueError
late = record { field = "total"; code = "range"; count = 2 }

abbrev missing : IssueError
missing = record { field = "id"; code = "required"; count = 1 }

merge_issue_errors-IsMerge_example :
    IsMerge (late ∷ []) (missing ∷ late ∷ []) (merge_issue_errors (late ∷ []) (missing ∷ late ∷ []))
merge_issue_errors-IsMerge_example = merge_issue_errors-IsMerge (late ∷ []) (missing ∷ late ∷ [])

abbrev failure_at : ℕ → IssueOccurrence
failure_at time = record {
  service = "orders";
  topic = "orders:create";
  version = "";
  status = "timeout";
  exception_type = "";
  trace_id = "";
  at = time;
  errors = late ∷ [];
}

abbrev pub pair : List IssueOccurrence
pair = failure_at 3 ∷ failure_at 4 ∷ []

abbrev pub collector : CollectorStore
collector = record { services = []; topics = []; spans = new_store.spans }

abbrev span : Span
span = record {
  trace_id = "4bf92f3577b34da6a3ce929d0e0e4736";
  span_id = "00f067aa0ba902b7";
  trace_state = "";
}

parse_traceparent-traceparent_example :
    parse_traceparent (traceparent span) ≡ (span.trace_id, span.span_id)
unfolding all_hex
parse_traceparent-traceparent_example =
    parse_traceparent-traceparent span (refl, refl, refl, refl, refl, refl)

abbrev Base : Type 0
Base = Unit {0}

abbrev ctx : Ctx Base
ctx = record { base = tt; scope = none; invocation = false }

abbrev counted : Next Base ℕ ℕ
counted c s = (ret none, record s { world = s.world + 1 })

abbrev exporter : Traced → Go ℕ (Unit {0})
exporter event world = (ret tt, world + 10)

abbrev begun : State ℕ ℕ
begun = record {
  ic = new_invocation (record { id = "orders:create"; version = "" }) none none none;
  world = 0;
}

abbrev ids : ℕ → String × String
ids world = ("t", "s")

trace_middleware-observes_example :
    trace_middleware "orders" "i1"
      (some exporter)
      (λ world. world)
      ids
      (λ joined c. c)
      ctx
      counted
      begun
    ≡ (ret none, record begun { world = 11 })
unfolding new_invocation
trace_middleware-observes_example =
    trace_middleware-observes counted ctx (λ world. world) "orders" "i1" exporter ids
      (λ joined c. c) begun (record begun { world = 1 }) none refl

abbrev sent : IssueBatch
sent = (flush "orders" (record_occurrences sha pair [])).0

add_issues-IsMerged_example : IsMerged sent collector (add_issues 9 sent collector)
add_issues-IsMerged_example = add_issues-IsMerged 9 sent collector

abbrev sizes : Sizes
sizes = record { batch_size = 2; buffer_size = 1 }

abbrev pushing : List ℕ → List ℕ → PushPhase → Bool → Push ℕ
pushing queue batch phase stop = record {
  queue = queue;
  batch = batch;
  sent = [];
  phase = phase;
  stop = stop;
}

abbrev all_events : List ℕ
all_events = 7 ∷ 8 ∷ 9 ∷ []

-- After `Close`, the goroutine empties the queue while a caller still exports.
still_exporting : Reach sizes all_events (pushing [] all_events draining true)
unfolding new_push receive_event
still_exporting =
    after _ none (pushing (9 ∷ []) (7 ∷ 8 ∷ []) draining true) _
      (after _ (some 9) (pushing [] (7 ∷ 8 ∷ []) draining true) _
        (after _ none (pushing (8 ∷ []) (7 ∷ []) draining true) _
          (after _ (some 8) (pushing [] (7 ∷ []) draining true) _
            (after _ none (pushing (7 ∷ []) [] draining true) _
              (after _ none (pushing (7 ∷ []) [] selecting true) _
                (after _ none (pushing (7 ∷ []) [] selecting false) _
                  (after [] (some 7) (pushing [] [] selecting false) _ start
                    (queued 7 (omega arith)))
                  closed)
                (stopped refl refl))
              (drained 7 [] refl refl))
            (queued 8 (omega arith)))
          (drained 8 [] refl refl))
        (queued 9 (omega arith)))
      (drained 9 [] refl refl)

Reach-IsFaithful_example :
    IsFaithful sizes all_events (flush_batch ended (pushing [] all_events closing true))
Reach-IsFaithful_example =
    Reach-IsFaithful sizes all_events (flush_batch ended (pushing [] all_events closing true))
      (omega arith)
      (after all_events none (pushing [] all_events closing true) _
        (after all_events none (pushing [] all_events draining true) _ still_exporting
          (emptied refl refl))
        (finished refl))
