-- ===== src/MeshCollector/Views/Fleet.antt =====
-- meshd/store.go, `traceSummaries`, `service` and `fleet`: the summaries of the traces in the ring, one
-- service with its instances, and the whole view.
pub mod Failed
use benzene_go.Prelude.{
  ℕ, String, Bool, false, not, Option, none, some, List, [], ltb, length, contains, take, sort_by,
  text_ltb, ◌||◌, ◌∷◌, if◌then◌else◌, ◌==◌, string_eq, nat_eq,
}
use benzene_go.Maps.{Map, lookup}
use benzene_go.Status.{Status, is_failure}
use benzene_go.Topic.{Topic, topic_eq}
use benzene_go.MeshCollector.Spans.{TraceEvent}
use benzene_go.MeshCollector.State.{
  Registration, InstanceState, ServiceState, TopicState, EventBody, CollectorStore,
}
use benzene_go.MeshCollector.Views.{
  ServiceSummary, TopicSummary, IssueView, service_summary, topic_summary, fleet_issues, events_of,
  started_before,
}

abbrev pub Event : Type 0
Event = TraceEvent EventBody

-- `TraceSummary`, without its duration
pub record TraceSummary : Type 0 where
  pub trace_id : String
  pub events : ℕ
  pub started_at : ℕ
  pub status : Status
  pub services : List String
  pub failed : Bool

-- The loop with `break`: the first failing status.
unfoldable pub first_failure : List Event → Option Status
first_failure [] = none
first_failure (event ∷ events) =
    let rest = first_failure events in
    if is_failure event.rest.status then some event.rest.status else rest

unfoldable pub trace_status : List Event → Status
unfolding first_failure
trace_status [] = ""
trace_status (event ∷ events) = elim (first_failure (event ∷ events)) [
  | none ↦ event.rest.status
  | some status ↦ status
]

unfoldable pub any_failure : List Event → Bool
any_failure [] = false
any_failure (event ∷ events) = is_failure event.rest.status || any_failure events

unfoldable pub earliest : ℕ → List Event → ℕ
earliest at [] = at
earliest at (event ∷ events) =
    earliest (if ltb event.rest.started_at at then event.rest.started_at else at) events

-- services[event.Service] = true, for the events that name one
unfoldable pub services_of : List Event → List String → List String
services_of [] set = set
services_of (event ∷ events) set =
    services_of events
      (if event.service == "" || contains set event.service then set else event.service ∷ set)

unfoldable pub summarize : String → List Event → TraceSummary
unfolding trace_status any_failure earliest services_of
summarize trace_id events = record {
  trace_id = trace_id;
  events = length events;
  started_at = elim events [
    | [] ↦ 0
    | event ∷ rest ↦ earliest event.rest.started_at (event ∷ rest)
  ];
  status = trace_status (sort_by started_before events);
  services = sort_by text_ltb (services_of events []);
  failed = any_failure events;
}

-- The keys of byTrace, with the events of each.
unfoldable pub trace_ids : List Event → List String → List String
trace_ids [] seen = []
trace_ids (event ∷ events) seen =
    let known = trace_ids events seen in
    let new = trace_ids events (event.rest.trace_id ∷ seen) in
    if contains seen event.rest.trace_id then known else event.rest.trace_id ∷ new

unfoldable pub summaries_of : List String → List Event → List TraceSummary
unfolding summarize events_of
summaries_of [] ring = []
summaries_of (trace_id ∷ ids) ring =
    summarize trace_id (events_of trace_id ring) ∷ summaries_of ids ring

abbrev pub newer : TraceSummary → TraceSummary → Bool
newer a b = ltb b.started_at a.started_at

-- `traceSummaries`
unfoldable pub trace_summaries : ℕ → CollectorStore → List TraceSummary
unfolding trace_ids summaries_of
trace_summaries limit s =
    take limit (sort_by newer (summaries_of (trace_ids s.spans.ring []) s.spans.ring))

pub record InstanceView : Type 0 where
  pub instance_id : String
  pub service_version : String
  pub healthy : Bool
  pub last_heartbeat : ℕ
  pub registration_hash : String
  pub hash_matches : Option Bool

unfoldable pub hash_matches_of : Option Registration → InstanceState → Option Bool
hash_matches_of none state = none
hash_matches_of (some reg) state =
    if reg.registration_hash == "" || state.registration_hash == ""
    then none
    else some (state.registration_hash == reg.registration_hash)

unfoldable pub instance_views : Option Registration → Map String InstanceState → List InstanceView
unfolding hash_matches_of
instance_views reg [] = []
instance_views reg ((id, state) ∷ instances) =
    record {
      instance_id = id;
      service_version = state.service_version;
      healthy = state.healthy;
      last_heartbeat = state.last_heartbeat;
      registration_hash = state.registration_hash;
      hash_matches = hash_matches_of reg state;
    }
    ∷ instance_views reg instances

-- `ServiceView`; the descriptor is the registered document as received.
pub record ServiceView : Type 0 where
  pub summary : ServiceSummary
  pub descriptor : String
  pub instances : List InstanceView

-- `service`
unfoldable pub query_service : String → CollectorStore → Option ServiceView
unfolding service_summary instance_views
query_service name s = elim (lookup name s.services) [
  | none ↦ none
  | some state ↦ some (record {
    summary = service_summary name state;
    descriptor = elim state.registration [ none ↦ "" | some reg ↦ reg.raw ];
    instances =
        sort_by (λ a b. text_ltb a.instance_id b.instance_id)
          (instance_views state.registration state.instances);
  })
]

unfoldable pub service_summaries : Map String ServiceState → List ServiceSummary
unfolding service_summary
service_summaries [] = []
service_summaries ((name, state) ∷ services) =
    service_summary name state ∷ service_summaries services

unfoldable pub topic_summaries : Map Topic TopicState → List TopicSummary
unfolding topic_summary
topic_summaries [] = []
topic_summaries ((key, state) ∷ topics) = topic_summary key state ∷ topic_summaries topics

abbrev pub topic_before : TopicSummary → TopicSummary → Bool
topic_before a b =
    if not (a.topic == b.topic) then text_ltb a.topic b.topic else text_ltb a.version b.version

pub record FleetView : Type 0 where
  pub generated_at : ℕ
  pub services : List ServiceSummary
  pub topics : List TopicSummary
  pub traces : List TraceSummary
  pub issues : List IssueView

abbrev pub max_fleet_traces : ℕ
max_fleet_traces = 20

-- `fleet`
unfoldable pub query_fleet : ℕ → CollectorStore → FleetView
unfolding service_summaries topic_summaries trace_summaries fleet_issues
query_fleet now s = record {
  generated_at = now;
  services = sort_by (λ a b. text_ltb a.service b.service) (service_summaries s.services);
  topics = sort_by topic_before (topic_summaries s.topics);
  traces = trace_summaries max_fleet_traces s;
  issues = fleet_issues s;
}
