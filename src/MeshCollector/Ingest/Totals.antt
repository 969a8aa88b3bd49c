-- ===== src/MeshCollector/Ingest/Totals.antt =====
-- The sums over all services and all topics, when one of them changes.
use benzene_go.Prelude.{
  ℕ, String, refl, sym, Option, none, some, arith, ◌+◌, ◌≡◌, string_eq, nat_eq,
}
use benzene_go.Maps.{Map, lookup, total, weight, total-insert}
use benzene_go.Topic.{Topic, topic_eq}
use benzene_go.MeshCollector.State.{
  ServiceState, TopicState, update_service, update_topic, ensure_service, ensure_topic,
}

weight-ensure_service :
    (f : ServiceState → ℕ)
    → f (ensure_service none) ≡ 0
    → (found : Option ServiceState) → weight f found ≡ f (ensure_service found)
unfolding ensure_service
weight-ensure_service f empty none = sym empty
weight-ensure_service f empty (some service) = refl

-- A change that adds to one service adds as much to the sum.
pub total-update_service :
    (f : ServiceState → ℕ) (change : ServiceState → ServiceState) (added : ℕ)
    → f (ensure_service none) ≡ 0
    → ((service : ServiceState) → f (change service) ≡ f service + added)
    → (name : String) (services : Map String ServiceState)
    → total f (update_service name change services) ≡ total f services + added
unfolding update_service
total-update_service f change added empty h name services =
    let service = ensure_service (lookup name services) in
    omega (
      arith,
      total-insert f name (change service) services,
      weight-ensure_service f empty (lookup name services),
      h service,
    )

weight-ensure_topic :
    (f : TopicState → ℕ)
    → f (ensure_topic none) ≡ 0
    → (found : Option TopicState) → weight f found ≡ f (ensure_topic found)
unfolding ensure_topic
weight-ensure_topic f empty none = sym empty
weight-ensure_topic f empty (some topic) = refl

pub total-update_topic :
    (f : TopicState → ℕ) (change : TopicState → TopicState) (added : ℕ)
    → f (ensure_topic none) ≡ 0
    → ((topic : TopicState) → f (change topic) ≡ f topic + added)
    → (key : Topic) (topics : Map Topic TopicState)
    → total f (update_topic key change topics) ≡ total f topics + added
unfolding update_topic
total-update_topic f change added empty h key topics =
    let topic = ensure_topic (lookup key topics) in
    omega (
      arith,
      total-insert f key (change topic) topics,
      weight-ensure_topic f empty (lookup key topics),
      h topic,
    )
