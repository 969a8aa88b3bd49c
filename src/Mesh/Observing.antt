-- ===== src/Mesh/Observing.antt =====
-- mesh/trace.go and mesh/issues.go: the two middlewares that observe an invocation.
pub mod Unchanged
use benzene_go.Prelude.{ℕ, String, Option, none, some, if◌then◌else◌, string_eq, nat_eq}
use benzene_go.Maps.{Map, lookup}
use benzene_go.Flow.{Go, Err, Flow, ret, pure, gets, modify, ◌>>=◌, ◌>>◌}
use benzene_go.Status.{Status}
use benzene_go.Pipeline.{Ctx, State, Middleware, Invocation}
use benzene_go.Result.{ResultInfo}
use benzene_go.Mesh.Issues.{issue_worth_recording, issue_errors_of}
use benzene_go.Mesh.Exporter.{IssueOccurrence}
use benzene_go.Mesh.Trace.{Span, Traced, header, joined_span, parse_traceparent}

abbrev pub status_of : {V : Type 0} → Option (ResultInfo V) → Status
status_of none = ""
status_of (some r) = r.result_status

-- The event of an invocation: what was read before it ran, and its result.
unfoldable pub traced_event :
    {V : Type 0}
    → String
    → String
    → ℕ
    → Span × String
    → Invocation V
    → Option (ResultInfo V)
    → Traced
traced_event service instance_id started (span, parent) ic result = record {
  trace_id = span.trace_id;
  span_id = span.span_id;
  parent_span_id = parent;
  service = service;
  instance_id = instance_id;
  topic = ic.topic.id;
  topic_version = ic.topic.version;
  status = status_of result;
  started_at = started;
  correlation_id = header "x-correlation-id" ic.headers;
}

-- The occurrence that `IssueMiddleware` records.
unfoldable pub occurrence_of :
    {V : Type 0} → String → ℕ → Option Span → Invocation V → IssueOccurrence
unfolding issue_errors_of parse_traceparent
occurrence_of service now span ic = record {
  service = service;
  topic = ic.topic.id;
  version = ic.topic.version;
  status = status_of ic.result;
  exception_type = "";
  trace_id = elim span [
    | none ↦ (parse_traceparent (header "traceparent" ic.headers)).0
    | some joined ↦ joined.trace_id
  ];
  at = now;
  errors = issue_errors_of ic.result;
}

module _ {V W : Type 0} where
  -- `export`: a panic of the exporter is swallowed.
  unfoldable pub export_event : (Traced → Go W (Unit {0})) → Traced → Go (State V W) (Unit {0})
  export_event exporter event s = (ret tt, record s { world = (exporter event s.world).1 })

module _ {C V W : Type 0} where
  -- `TraceMiddleware`; `none` is a nil exporter. `clock` and `ids` read the time and two new ids,
  -- and `with_span` is `contextWithSpan`.
  unfoldable pub trace_middleware :
      String
      → String
      → Option (Traced → Go W (Unit {0}))
      → (W → ℕ)
      → (W → String × String)
      → (Span → Ctx C → Ctx C)
      → Middleware C V W
  unfolding joined_span export_event traced_event
  trace_middleware service instance_id none clock ids with_span ctx next = next ctx
  trace_middleware service instance_id (some exporter) clock ids with_span ctx next = do
    s ← gets (λ s. s)
    let joined = joined_span s.ic.headers (ids s.world).0 (ids s.world).1
    err ← next (with_span joined.0 ctx)
    result ← gets (λ s'. s'.ic.result)
    export_event exporter (traced_event service instance_id (clock s.world) joined s.ic result)
    pure err

  -- `IssueMiddleware`; `none` is a nil exporter, and `span_of` is `SpanFromContext`.
  unfoldable pub issue_middleware :
      String → Option (IssueOccurrence → W → W) → (W → ℕ) → (Ctx C → Option Span) → Middleware C V W
  unfolding occurrence_of issue_worth_recording
  issue_middleware service none clock span_of ctx next = next ctx
  issue_middleware service (some recorder) clock span_of ctx next = do
    err ← next ctx
    modify (λ s.
        if issue_worth_recording s.ic.result
        then record s {
          world = recorder (occurrence_of service (clock s.world) (span_of ctx) s.ic) s.world;
        }
        else s)
    pure err
