-- ===== src/MeshCollector/Edges.antt =====
-- meshd/store.go, `register`: the declared edges between services and topics.
pub mod Claims
use benzene_go.Prelude.{
  ℕ, String, Bool, true, false, none, some, List, [], is_some, ◌∷◌, string_eq, nat_eq,
}
use benzene_go.Maps.{Map, lookup, insert, delete}
use benzene_go.MeshCollector.State.{
  Registration, CollectorStore, TopicState, ServiceState, update_topic, update_service,
  ensure_topic,
}
use benzene_go.Topic.{Topic, topic_eq}

pub data Side : Type 0 where
  providing consuming : Side

unfoldable pub edges_on : Side → TopicState → Map String Bool
edges_on providing t = t.providers
edges_on consuming t = t.consumers

-- s.ensureTopic(key).consumers[service] = true, and the same for the providers
unfoldable pub declare_edge : Side → String → Topic → Map Topic TopicState → Map Topic TopicState
unfolding update_topic
declare_edge providing service key topics =
    update_topic key (λ t. record t { providers = insert service true t.providers }) topics
declare_edge consuming service key topics =
    update_topic key (λ t. record t { consumers = insert service true t.consumers }) topics

-- for key := range claims { … }
unfoldable pub declare_all :
    Side → String → List Topic → Map Topic TopicState → Map Topic TopicState
unfolding declare_edge
declare_all side service [] topics = topics
declare_all side service (key ∷ keys) topics =
    declare_all side service keys (declare_edge side service key topics)

-- for _, topic := range s.topics { delete(topic.providers, service); delete(topic.consumers, service) }
unfoldable pub withdraw : String → Map Topic TopicState → Map Topic TopicState
withdraw service [] = []
withdraw service ((key, t) ∷ topics) =
    (
      key,
      record t { providers = delete service t.providers; consumers = delete service t.consumers },
    )
    ∷ withdraw service topics

-- `register`
unfoldable pub register_service : ℕ → String → Registration → CollectorStore → CollectorStore
unfolding declare_all withdraw update_service
register_service now service reg s = record s {
  services =
      update_service service (λ state. record state { registration = some reg; last_seen = now })
        s.services;
  topics =
      declare_all providing service reg.produces
        (declare_all consuming service reg.requests (withdraw service s.topics));
}

-- Whether a service is declared on a side of a topic.
unfoldable pub has_edge : Side → Topic → String → Map Topic TopicState → Bool
unfolding edges_on
has_edge side key service topics = elim (lookup key topics) [
  | none ↦ false
  | some t ↦ is_some (lookup service (edges_on side t))
]
