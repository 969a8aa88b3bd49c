-- ===== src/MeshCollector/Ingest.antt =====
-- meshd/store.go, `heartbeat` and `addEvents`: what a health report and a batch of trace events
-- write, and when an event is flagged as contract drift.
pub mod Totals
pub mod Tallies
pub mod Frames
pub mod Accepted
pub mod Drift
use benzene_go.Prelude.{
  ℕ, String, Bool, false, not, Option, none, some, List, [], contains, ◌+◌, ◌&&◌, ◌||◌, ◌∷◌,
  if◌then◌else◌, ◌==◌, string_eq, nat_eq,
}
use benzene_go.Maps.{Map, lookup, insert}
use benzene_go.Status.{Status, is_failure}
use benzene_go.Topic.{Topic, topic_eq}
use benzene_go.Flow.{Flow, ret, panic}
use benzene_go.Mesh.Issues.{count_at}
use benzene_go.MeshCollector.Spans.{TraceEvent, record_span}
use benzene_go.MeshCollector.Merging.{latest, record_drift_issue}
use benzene_go.MeshCollector.State.{
  Registration, EventBody, InstanceState, ServiceState, TopicState, CollectorStore, update_service,
  update_topic, is_reserved,
}

-- What `heartbeat` reads of a `mesh.Heartbeat`.
pub record Heartbeat : Type 0 where
  pub service : String
  pub instance_id : String
  pub is_healthy : Bool
  pub service_version : String
  pub registration_hash : String

-- `heartbeat`
unfoldable pub heartbeat : ℕ → Heartbeat → CollectorStore → CollectorStore
unfolding update_service
heartbeat now hb s =
    let instance_state : InstanceState = record {
      healthy = hb.is_healthy;
      last_heartbeat = now;
      service_version = hb.service_version;
      registration_hash = hb.registration_hash;
    } in
    record s {
      services =
          update_service hb.service
            (λ state. record state {
              last_seen = now;
              instances = insert hb.instance_id instance_state state.instances;
            })
            s.services;
    }

abbrev pub topic_of : EventBody → Topic
topic_of event = record { id = event.topic; version = event.topic_version }

unfoldable pub count_status : Status → Map Status ℕ → Map Status ℕ
count_status status counts = insert status (count_at (lookup status counts) + 1) counts

-- The counters of the topic and of the service of an event.
unfoldable pub count_topic : ℕ → EventBody → TopicState → TopicState
unfolding count_status
count_topic now event topic = record topic {
  invocations = topic.invocations + 1;
  status_counts = count_status event.status topic.status_counts;
  last_seen = now;
  errors = topic.errors + (if is_failure event.status then 1 else 0);
}

unfoldable pub count_service : ℕ → EventBody → ServiceState → ServiceState
count_service now event service = record service {
  invocations = service.invocations + 1;
  last_seen = now;
  errors = service.errors + (if is_failure event.status then 1 else 0);
}

-- seen[service] = laterOf(seen[service], at)
unfoldable pub observe : String → ℕ → Map String ℕ → Map String ℕ
observe service at seen = insert service (latest (count_at (lookup service seen)) at) seen

unfoldable pub observe_consumer : String → EventBody → TopicState → TopicState
unfolding observe
observe_consumer service event topic = record topic {
  consumer_last_seen = observe service event.started_at topic.consumer_last_seen;
}

unfoldable pub observe_provider : String → EventBody → TopicState → TopicState
unfolding observe
observe_provider caller event topic = record topic {
  provider_last_seen = observe caller event.started_at topic.provider_last_seen;
}

-- Whether the two drift checks flag an event, for the registration of the service they look at.
unfoldable pub handler_drifts : EventBody → Option Registration → Bool
handler_drifts event none = false
handler_drifts event (some reg) =
    not (is_reserved event.topic)
    && reg.requests_known
    && not (contains reg.requests (topic_of event))

unfoldable pub sender_drifts : EventBody → Option Registration → Bool
sender_drifts event none = false
sender_drifts event (some reg) =
    not (is_reserved event.topic)
    && reg.produces_known
    && not (contains reg.produces (topic_of event))

abbrev pub registration_of : Option ServiceState → Option Registration
registration_of none = none
registration_of (some service) = service.registration

module _ (hash : String → String) where
  -- `checkHandlerDrift`
  unfoldable pub check_handler_drift : String → EventBody → CollectorStore → CollectorStore
  unfolding handler_drifts record_drift_issue
  check_handler_drift service event s =
      if handler_drifts event (registration_of (lookup service s.services))
      then record_drift_issue hash service event s
      else s

  -- `checkSenderDrift`
  unfoldable pub check_sender_drift : String → EventBody → CollectorStore → CollectorStore
  unfolding sender_drifts record_drift_issue
  check_sender_drift caller event s =
      if sender_drifts event (registration_of (lookup caller s.services))
      then record_drift_issue hash caller event s
      else s

  -- The part of the loop for an event that names its service.
  unfoldable pub note_handler : ℕ → String → EventBody → CollectorStore → CollectorStore
  unfolding count_service observe_consumer check_handler_drift update_service update_topic
  note_handler now service event s =
      if service == ""
      then s
      else check_handler_drift service event (record s {
        services = update_service service (count_service now event) s.services;
        topics = update_topic (topic_of event) (observe_consumer service event) s.topics;
      })

  -- The part of the loop for an event whose parent span has a known service.
  unfoldable pub note_sender : String → EventBody → Option String → CollectorStore → CollectorStore
  unfolding observe_provider check_sender_drift update_topic
  note_sender service event none s = s
  note_sender service event (some caller) s =
      if caller == "" || caller == service
      then s
      else check_sender_drift caller event (record s {
        topics = update_topic (topic_of event) (observe_provider caller event) s.topics;
      })

  unfoldable pub note_caller : String → EventBody → CollectorStore → CollectorStore
  unfolding note_sender
  note_caller service event s =
      if event.parent_span_id == ""
      then s
      else note_sender service event (lookup event.parent_span_id s.spans.span_service) s

  -- One round of the loop of `addEvents`, after `recordSpan`.
  unfoldable pub note_event : ℕ → String → EventBody → CollectorStore → CollectorStore
  unfolding note_handler note_caller count_topic update_topic
  note_event now service event s = note_caller service event (
      note_handler now service event
        (record s { topics = update_topic (topic_of event) (count_topic now event) s.topics }))

  -- `addEvents`; the number of accepted events is the length of the batch.
  unfoldable pub add_events :
      ℕ → ℕ → List (TraceEvent EventBody) → CollectorStore → Flow CollectorStore
  unfolding note_event record_span
  add_events capacity now [] s = ret s
  add_events capacity now (event ∷ events) s = elim (record_span capacity event s.spans) [
    | ret spans ↦
        add_events capacity now events
          (note_event now event.service event.rest (record s { spans = spans }))
    | panic text ↦ panic text
  ]
