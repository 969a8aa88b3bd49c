-- ===== src/Mesh/Observing/Unchanged.antt =====
-- Observing changes neither what an invocation returns nor what it leaves on the invocation.
use benzene_go.Prelude.{ℕ, String, refl, inl, inr, Option, some, Bool-cases, ◌≡◌, if◌then◌else◌}
use benzene_go.Flow.{Go, Err, ret}
use benzene_go.Pipeline.{Ctx, State, Next}
use benzene_go.Mesh.Issues.{issue_worth_recording}
use benzene_go.Mesh.Exporter.{IssueOccurrence}
use benzene_go.Mesh.Trace.{Span, Traced, joined_span}
use benzene_go.Mesh.Observing.{
  traced_event, occurrence_of, export_event, trace_middleware, issue_middleware,
}

module _ {C V W : Type 0} (next : Next C V W) (ctx : Ctx C) (clock : W → ℕ) where
  -- Where the next step returns, the trace middleware returns the same error and leaves the
  -- invocation as the next step left it, and the exporter gets one event, with the result that was
  -- left; this holds too if the exporter panics.
  pub trace_middleware-observes :
      (service instance_id : String) (exporter : Traced → Go W (Unit {0}))
      (ids : W → String × String) (with_span : Span → Ctx C → Ctx C) (s s' : State V W)
      (err : Option Err)
      → let joined = joined_span s.ic.headers (ids s.world).0 (ids s.world).1 in
        let event = traced_event service instance_id (clock s.world) joined s.ic s'.ic.result in
        next (with_span joined.0 ctx) s ≡ (ret err, s')
        → trace_middleware service instance_id (some exporter) clock ids with_span ctx next s
          ≡ (ret err, record s' { world = (exporter event s'.world).1 })
  unfolding trace_middleware export_event
  trace_middleware-observes service instance_id exporter ids with_span s s' err ran =
      rw (ran, trace_middleware) refl

  pub issue_middleware-observes :
      (service : String) (recorder : IssueOccurrence → W → W) (span_of : Ctx C → Option Span)
      (s s' : State V W) (err : Option Err)
      → next ctx s ≡ (ret err, s')
      → let occurrence = occurrence_of service (clock s'.world) (span_of ctx) s'.ic in
        issue_middleware service (some recorder) clock span_of ctx next s ≡ (
          ret err,
          record s' {
            world =
                if issue_worth_recording s'.ic.result
                then recorder occurrence s'.world
                else s'.world;
          },
        )
  unfolding issue_middleware
  issue_middleware-observes service recorder span_of s s' err ran =
      rw (ran, issue_middleware)
        (elim (Bool-cases (issue_worth_recording s'.ic.result)) [
          | inl worth ↦ rw worth refl
          | inr fine ↦ rw fine refl
        ])
