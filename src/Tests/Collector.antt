-- ===== src/Tests/Collector.antt =====
-- A collector with room for two events, and two registrations of one service.
use benzene_go.Prelude.{
  String, refl, true, none, some, List, [], arith, contains, int64, ◌+◌, ◌≡◌, ◌∷◌, if◌then◌else◌,
  ◌==◌, string_eq, nat_eq,
}
use benzene_go.Flow.{ret}
use benzene_go.Maps.{lookup}
use benzene_go.Topic.{Topic, topic_eq}
use benzene_go.MeshCollector.Spans.{TraceEvent, Spans, item_at, record_span, set_at}
use benzene_go.MeshCollector.SpanMap.{
  IsSound, new_spans-IsSound, holds_span, duplicate_span-forgotten,
}
use benzene_go.MeshCollector.State.{
  Document, Registration, CollectorStore, new_registration, new_store, EventBody,
}
use benzene_go.MeshCollector.Edges.{register_service, has_edge, consuming}
use benzene_go.MeshCollector.Ingest.{add_events, check_handler_drift, topic_of}
use benzene_go.MeshCollector.Ingest.Accepted.{IsIngested, add_events-IsIngested}
use benzene_go.MeshCollector.Ingest.Drift.{
  drift_count, undeclared_request, check_handler_drift-register_service,
}
use benzene_go.MeshCollector.Edges.Claims.{claims_on, has_edge-register_service}

abbrev event : String → String → TraceEvent (Unit {0})
event service span_id = record { service = service; span_id = span_id; rest = tt }

abbrev both : Spans (Unit {0})
both = record {
  ring = event "orders" "x" ∷ event "stock" "x" ∷ [];
  next = 0;
  span_service = ("x", "stock") ∷ [];
}

duplicate_span-forgotten_example :
    (s : Spans (Unit {0})) × (record_span 2 (event "mail" "y") both ≡ ret s)
    × (holds_span "x" "stock" s.ring ≡ true)
    × (lookup "x" s.span_service ≡ none)
unfolding item_at holds_span set_at
duplicate_span-forgotten_example =
    duplicate_span-forgotten 2 (event "mail" "y") (event "orders" "x") both "stock" (omega arith)
      refl refl refl refl

abbrev create : Topic
create = record { id = "orders:create"; version = "v1" }

abbrev cancel : Topic
cancel = record { id = "orders:cancel"; version = "" }

abbrev document : List Topic → List Topic → Document
document requests events = record {
  service_version = "1";
  runtime = "go";
  placement = none;
  transports = [];
  registration_hash = "";
  degraded = [];
  requests = some requests;
  events = some events;
  sends = some [];
}

abbrev first : Registration
first = new_registration (document (create ∷ cancel ∷ []) []) "{}"

abbrev second : Registration
second = new_registration (document (create ∷ []) (cancel ∷ [])) "{}"

abbrev owner : String
owner = "orders"

abbrev registered : CollectorStore
registered = register_service 5 owner first new_store

has_edge-register_service_example :
    has_edge consuming cancel owner (register_service 6 owner second registered).topics ≡ (
      if owner == owner
      then contains (claims_on consuming second) cancel
      else has_edge consuming cancel owner registered.topics)
has_edge-register_service_example =
    has_edge-register_service consuming cancel owner owner second 6 registered

abbrev sha : String → String
sha text = "0f"

abbrev handled : EventBody
handled = record {
  trace_id = "t1";
  parent_span_id = "";
  topic = "orders:cancel";
  topic_version = "";
  status = "timeout";
  started_at = 7;
}

abbrev batch : List (TraceEvent EventBody)
batch = record { service = owner; span_id = "s1"; rest = handled } ∷ []

add_events-IsIngested_example :
    (s : CollectorStore) × (add_events sha 2 8 batch new_store ≡ ret s)
    × IsSound 2 s.spans
    × IsIngested batch new_store s
unfolding new_store
add_events-IsIngested_example =
    add_events-IsIngested sha 2 8 batch new_store (new_spans-IsSound 2 (omega arith))

abbrev agreed : Document
agreed = document (create ∷ []) []

abbrev agreed_store : CollectorStore
agreed_store = register_service 5 owner (new_registration agreed "{}") new_store

check_handler_drift-register_service_example :
    drift_count sha owner handled (check_handler_drift sha owner handled agreed_store) ≡ (
      if undeclared_request agreed (topic_of handled)
      then int64 (drift_count sha owner handled agreed_store + 1)
      else drift_count sha owner handled agreed_store)
check_handler_drift-register_service_example =
    check_handler_drift-register_service sha 5 owner "{}" agreed handled new_store refl
