-- ===== src/MeshCollector/State.antt =====
-- meshd/store.go: the state of the collector. Times are numbers, and 0 is Go's zero time.
use benzene_go.Prelude.{
  ℕ, String, Bool, false, not, Option, none, some, List, [], is_some, contains, ◌&&◌, ◌∷◌,
  if◌then◌else◌, ◌==◌, string_eq, nat_eq,
}
use benzene_go.Maps.{Map, lookup, insert}
use benzene_go.Topic.{Topic, topic_eq}
use benzene_go.Status.{Status}
use benzene_go.Mesh.Issues.{IssueError}
use benzene_go.MeshCollector.Spans.{Spans, new_spans}
use text.Mathlib.Text.{starts_with}

-- contract/document.go: `IsReserved` and the fields of a `Document` that a registration reads.
abbrev reserved_prefix : String
reserved_prefix = "benzene:"

unfoldable pub is_reserved : String → Bool
is_reserved topic = starts_with topic reserved_prefix

pub record Placement : Type 0 where
  pub cloud : String
  pub region : String

-- A member that the body omits is `none`; an entry is its topic and version.
pub record Document : Type 0 where
  pub service_version : String
  pub runtime : String
  pub placement : Option Placement
  pub transports : List String
  pub registration_hash : String
  pub degraded : List String
  pub requests : Option (List Topic)
  pub events : Option (List Topic)
  pub sends : Option (List Topic)

-- `registration`; a set of topic keys is a list without repetitions.
pub record Registration : Type 0 where
  pub raw : String
  pub service_version : String
  pub runtime : String
  pub placement : Option Placement
  pub transports : List String
  pub registration_hash : String
  pub requests : List Topic
  pub produces : List Topic
  pub requests_known : Bool
  pub produces_known : Bool

pub record InstanceState : Type 0 where
  pub healthy : Bool
  pub last_heartbeat : ℕ
  pub service_version : String
  pub registration_hash : String

pub record IssueState : Type 0 where
  pub classification : String
  pub topic : String
  pub version : String
  pub transport : String
  pub status : Status
  pub exception_type : String
  pub count : ℕ
  pub first_seen : ℕ
  pub last_seen : ℕ
  pub exemplar_trace_ids : List String
  pub resolution_hint : String
  pub errors : List IssueError

pub record ServiceState : Type 0 where
  pub registration : Option Registration
  pub instances : Map String InstanceState
  pub last_seen : ℕ
  pub invocations : ℕ
  pub errors : ℕ
  pub issues : Map String IssueState
  pub issues_feed_seen : Bool

-- `topicState`; a set is a map to true, and the sum of the durations is left out.
pub record TopicState : Type 0 where
  pub providers : Map String Bool
  pub consumers : Map String Bool
  pub provider_last_seen : Map String ℕ
  pub consumer_last_seen : Map String ℕ
  pub status_counts : Map Status ℕ
  pub invocations : ℕ
  pub errors : ℕ
  pub last_seen : ℕ

-- What a `mesh.TraceEvent` has beside the two fields of the span map.
pub record EventBody : Type 0 where
  pub trace_id : String
  pub parent_span_id : String
  pub topic : String
  pub topic_version : String
  pub status : Status
  pub started_at : ℕ

pub record CollectorStore : Type 0 where
  pub services : Map String ServiceState
  pub topics : Map Topic TopicState
  pub spans : Spans EventBody

unfoldable pub new_store : CollectorStore
unfolding new_spans
new_store = record { services = []; topics = []; spans = new_spans }

-- `ensureService`
unfoldable pub ensure_service : Option ServiceState → ServiceState
ensure_service none = record {
  registration = none;
  instances = [];
  last_seen = 0;
  invocations = 0;
  errors = 0;
  issues = [];
  issues_feed_seen = false;
}
ensure_service (some service) = service

-- `ensureTopic`
unfoldable pub ensure_topic : Option TopicState → TopicState
ensure_topic none = record {
  providers = [];
  consumers = [];
  provider_last_seen = [];
  consumer_last_seen = [];
  status_counts = [];
  invocations = 0;
  errors = 0;
  last_seen = 0;
}
ensure_topic (some topic) = topic

-- state := s.ensureService(name), and the writes through it; the same for a topic
unfoldable pub update_service :
    String → (ServiceState → ServiceState) → Map String ServiceState → Map String ServiceState
unfolding ensure_service
update_service name change services =
    insert name (change (ensure_service (lookup name services))) services

unfoldable pub update_topic :
    Topic → (TopicState → TopicState) → Map Topic TopicState → Map Topic TopicState
unfolding ensure_topic
update_topic key change topics = insert key (change (ensure_topic (lookup key topics))) topics

-- `known` and `claim` of `newRegistration`
unfoldable pub is_known_member : String → List String → Option (List Topic) → Bool
is_known_member member degraded entries = is_some entries && not (contains degraded member)

unfoldable pub add_claims : List Topic → List Topic → List Topic
add_claims [] set = set
add_claims (key ∷ keys) set = add_claims keys (
    if (not (key.id == "") && not (is_reserved key.id)) && not (contains set key)
    then key ∷ set
    else set)

abbrev pub entries_of : Option (List Topic) → List Topic
entries_of none = []
entries_of (some entries) = entries

-- `newRegistration`
unfoldable pub new_registration : Document → String → Registration
unfolding is_known_member add_claims
new_registration doc raw = record {
  raw = raw;
  service_version = doc.service_version;
  runtime = doc.runtime;
  placement = doc.placement;
  transports = doc.transports;
  registration_hash = doc.registration_hash;
  requests = add_claims (entries_of doc.requests) [];
  produces = add_claims (entries_of doc.sends) (add_claims (entries_of doc.events) []);
  requests_known = is_known_member "requests" doc.degraded doc.requests;
  produces_known =
      is_known_member "events" doc.degraded doc.events
      && is_known_member "sends" doc.degraded doc.sends;
}
