-- ===== src/MeshCollector/Views.antt =====
-- meshd/store.go: what a query reads. The sums of durations are left out, and a map is listed in the
-- order of its entries before it is sorted.
pub mod Activity
pub mod Shown
pub mod Fleet
use benzene_go.Prelude.{
  ℕ, String, Bool, true, not, Option, none, some, List, [], ltb, is_some, length, sort_by, text_ltb,
  ◌&&◌, ◌∷◌, ◌++◌, if◌then◌else◌, ◌==◌, string_eq, nat_eq,
}
use benzene_go.Maps.{Map, lookup, insert}
use benzene_go.Status.{Status, is_failure}
use benzene_go.Topic.{Topic, topic_eq}
use benzene_go.Mesh.Issues.{IssueError, count_at}
use benzene_go.MeshCollector.Spans.{TraceEvent}
use benzene_go.MeshCollector.State.{
  Placement, Registration, InstanceState, IssueState, ServiceState, TopicState, EventBody,
  CollectorStore,
}

-- `ServiceSummary`, with the health as its text
pub record ServiceSummary : Type 0 where
  pub service : String
  pub service_version : String
  pub runtime : String
  pub transports : List String
  pub placement : Option Placement
  pub topics : ℕ
  pub produces : ℕ
  pub health : String
  pub last_seen : ℕ
  pub instances : ℕ
  pub invocations : ℕ
  pub errors : ℕ
  pub missing_feeds : List String

-- `TopicSummary`; an edge's activity is the time of its last observation.
pub record TopicSummary : Type 0 where
  pub topic : String
  pub version : String
  pub providers : List String
  pub consumers : List String
  pub invocations : ℕ
  pub errors : ℕ
  pub status_counts : Map Status ℕ
  pub last_seen : ℕ
  pub provider_activity : Map String ℕ
  pub consumer_activity : Map String ℕ

pub record IssueView : Type 0 where
  pub service : String
  pub fingerprint : String
  pub issue : IssueState

unfoldable pub keys_of : {V : Type 0} → Map String V → List String
keys_of [] = []
keys_of ((key, v) ∷ m) = key ∷ keys_of m

-- `sortedKeys`
unfoldable pub sorted_keys : {V : Type 0} → Map String V → List String
unfolding keys_of
sorted_keys set = sort_by text_ltb (keys_of set)

-- `activityFor`
unfoldable pub activity_for : Map String Bool → Map String ℕ → Map String ℕ
activity_for [] last_seen = []
activity_for ((service, b) ∷ declared) last_seen =
    (service, count_at (lookup service last_seen)) ∷ activity_for declared last_seen

-- `topicSummary`
unfoldable pub topic_summary : Topic → TopicState → TopicSummary
unfolding sorted_keys activity_for
topic_summary key state = record {
  topic = key.id;
  version = key.version;
  providers = sorted_keys state.providers;
  consumers = sorted_keys state.consumers;
  invocations = state.invocations;
  errors = state.errors;
  status_counts = state.status_counts;
  last_seen = state.last_seen;
  provider_activity = activity_for state.providers state.provider_last_seen;
  consumer_activity = activity_for state.consumers state.consumer_last_seen;
}

-- The loop over the instances: healthy as long as all of them are.
unfoldable pub all_healthy : Map String InstanceState → Bool
all_healthy [] = true
all_healthy ((id, instance_state) ∷ instances) = instance_state.healthy && all_healthy instances

unfoldable pub health_of : Map String InstanceState → String
unfolding all_healthy
health_of instances =
    if length instances == 0
    then "unknown"
    else if all_healthy instances
    then "healthy"
    else "degraded"

unfoldable pub missing_feeds_of : ServiceState → List String
missing_feeds_of state =
    (if is_some state.registration then [] else "descriptor" ∷ [])
    ++ (if length state.instances == 0 then "health" ∷ [] else [])
    ++ (if state.invocations == 0 then "traces" ∷ [] else [])
    ++ (if ltb 0 state.errors && not state.issues_feed_seen then "issues" ∷ [] else [])

-- `serviceSummary`
unfoldable pub service_summary : String → ServiceState → ServiceSummary
unfolding health_of missing_feeds_of
service_summary name state =
    let bare : ServiceSummary = record {
      service = name;
      service_version = "";
      runtime = "";
      transports = [];
      placement = none;
      topics = 0;
      produces = 0;
      health = health_of state.instances;
      last_seen = state.last_seen;
      instances = length state.instances;
      invocations = state.invocations;
      errors = state.errors;
      missing_feeds = missing_feeds_of state;
    } in
    elim state.registration [
      | none ↦ bare
      | some reg ↦ record bare {
        service_version = reg.service_version;
        runtime = reg.runtime;
        transports = reg.transports;
        placement = reg.placement;
        topics = length reg.requests;
        produces = length reg.produces;
      }
    ]

-- `topic`
unfoldable pub query_topic : Topic → CollectorStore → Option TopicSummary
unfolding topic_summary
query_topic key s = elim (lookup key s.topics) [
  | none ↦ none
  | some state ↦ some (topic_summary key state)
]

unfoldable pub events_of : String → List (TraceEvent EventBody) → List (TraceEvent EventBody)
events_of trace_id [] = []
events_of trace_id (event ∷ events) =
    let rest = events_of trace_id events in
    if event.rest.trace_id == trace_id then event ∷ rest else rest

abbrev pub started_before : TraceEvent EventBody → TraceEvent EventBody → Bool
started_before a b = ltb a.rest.started_at b.rest.started_at

unfoldable pub trace_view : List (TraceEvent EventBody) → Option (List (TraceEvent EventBody))
trace_view [] = none
trace_view (event ∷ events) = some (sort_by started_before (event ∷ events))

-- `trace`; `none` where no event in the ring has the trace.
unfoldable pub query_trace : String → CollectorStore → Option (List (TraceEvent EventBody))
unfolding events_of trace_view
query_trace trace_id s = trace_view (events_of trace_id s.spans.ring)

abbrev pub issue_before : IssueView → IssueView → Bool
issue_before a b =
    if not (a.service == b.service)
    then text_ltb a.service b.service
    else text_ltb a.fingerprint b.fingerprint

unfoldable pub issue_views : String → Map String IssueState → List IssueView
issue_views service [] = []
issue_views service ((fingerprint, issue) ∷ issues) =
    record { service = service; fingerprint = fingerprint; issue = issue }
    ∷ issue_views service issues

unfoldable pub all_issue_views : Map String ServiceState → List IssueView
unfolding issue_views
all_issue_views [] = []
all_issue_views ((name, state) ∷ services) =
    issue_views name state.issues ++ all_issue_views services

-- `fleetIssues`
unfoldable pub fleet_issues : CollectorStore → List IssueView
unfolding all_issue_views
fleet_issues s = sort_by issue_before (all_issue_views s.services)
