-- ===== src/MeshCollector/Edges/Claims.antt =====
-- The edges of a service are exactly the claims of its last registration.
use benzene_go.Prelude.{
  ℕ, String, refl, inl, inr, Bool, true, false, not, List, [], arith, Option-cases, is_some,
  contains, ◌≡◌, ◌&&◌, ◌||◌, ◌∷◌, if◌then◌else◌, ◌==◌, string_eq, nat_eq,
}
use benzene_go.Maps.{Map, lookup, insert, lookup-insert, lookup-delete}
use benzene_go.Topic.{Topic, topic_eq, topic_beq_iff}
use benzene_go.MeshCollector.State.{Registration, TopicState, CollectorStore, ensure_topic}
use benzene_go.MeshCollector.Edges.{
  Side, providing, consuming, edges_on, declare_edge, declare_all, withdraw, register_service,
  has_edge,
}

abbrev same_side : Side → Side → Bool
same_side providing providing = true
same_side consuming consuming = true
same_side _ _ = false

has_edge-withdraw :
    (side : Side) (key : Topic) (other service : String) (topics : Map Topic TopicState)
    → has_edge side key other (withdraw service topics)
      ≡ (not (service == other) && has_edge side key other topics)
unfolding has_edge withdraw lookup edges_on
has_edge-withdraw side key other service [] = ground arith
has_edge-withdraw providing key other service ((k, t) ∷ topics) = ground (
  arith,
  has_edge-withdraw providing key other service topics,
  lookup-delete service other t.providers,
)
has_edge-withdraw consuming key other service ((k, t) ∷ topics) = ground (
  arith,
  has_edge-withdraw consuming key other service topics,
  lookup-delete service other t.consumers,
)

-- One side of a topic that was declared, as the map of topics shows it.
pub has_edge-insert :
    (side : Side) (key k : Topic) (other : String) (t : TopicState) (topics : Map Topic TopicState)
    → has_edge side key other (insert k t topics) ≡ (
        if k == key
        then is_some (lookup other (edges_on side t))
        else has_edge side key other topics)
unfolding has_edge
has_edge-insert side key k other t topics =
    rw (lookup-insert k key t topics, has_edge) (ground arith)

-- A topic as `ensureTopic` gives it has the edges that the map shows.
pub ensure_topic-has_edge :
    (side : Side) (k : Topic) (other : String) (topics : Map Topic TopicState)
    → is_some (lookup other (edges_on side (ensure_topic (lookup k topics))))
      ≡ has_edge side k other topics
unfolding has_edge ensure_topic edges_on
ensure_topic-has_edge providing k other topics = elim (Option-cases (lookup k topics)) [
  | inl absent ↦ rw absent (rw (absent, has_edge) (unfold lookup in refl))
  | inr (t, e) ↦ rw e (rw (e, has_edge) refl)
]
ensure_topic-has_edge consuming k other topics = elim (Option-cases (lookup k topics)) [
  | inl absent ↦ rw absent (rw (absent, has_edge) (unfold lookup in refl))
  | inr (t, e) ↦ rw e (rw (e, has_edge) refl)
]

has_edge-declare_edge :
    (side at : Side) (key k : Topic) (other service : String) (topics : Map Topic TopicState)
    → has_edge side key other (declare_edge at service k topics)
      ≡ ((same_side at side && k == key && service == other) || has_edge side key other topics)
unfolding declare_edge edges_on
has_edge-declare_edge providing providing key k other service topics =
    let t = ensure_topic (lookup k topics) in
    rw has_edge-insert (
      ground (
        arith,
        topic_beq_iff k key,
        ensure_topic-has_edge providing k other topics,
        lookup-insert service other true t.providers,
      ))
has_edge-declare_edge providing consuming key k other service topics =
    rw has_edge-insert
      (ground (arith, topic_beq_iff k key, ensure_topic-has_edge providing k other topics))
has_edge-declare_edge consuming providing key k other service topics =
    rw has_edge-insert
      (ground (arith, topic_beq_iff k key, ensure_topic-has_edge consuming k other topics))
has_edge-declare_edge consuming consuming key k other service topics =
    let t = ensure_topic (lookup k topics) in
    rw has_edge-insert (
      ground (
        arith,
        topic_beq_iff k key,
        ensure_topic-has_edge consuming k other topics,
        lookup-insert service other true t.consumers,
      ))

has_edge-declare_all :
    (side at : Side) (key : Topic) (other service : String) (keys : List Topic)
    (topics : Map Topic TopicState)
    → has_edge side key other (declare_all at service keys topics) ≡ (
        (same_side at side && contains keys key && service == other)
        || has_edge side key other topics)
unfolding declare_all
has_edge-declare_all side at key other service [] topics = ground arith
has_edge-declare_all side at key other service (k ∷ keys) topics = ground (
  arith,
  has_edge-declare_all side at key other service keys (declare_edge at service k topics),
  has_edge-declare_edge side at key k other service topics,
  topic_beq_iff k key,
  topic_beq_iff key k,
)

-- The claims of a registration on one side.
abbrev pub claims_on : Side → Registration → List Topic
claims_on providing reg = reg.produces
claims_on consuming reg = reg.requests

-- After a registration, the edges of the registered service, on either side of every topic, are
-- exactly the claims of that registration, whatever it was declared for before, and the edges of
-- every other service are as they were.
pub has_edge-register_service :
    (side : Side) (key : Topic) (other service : String) (reg : Registration) (now : ℕ)
    (s : CollectorStore)
    → has_edge side key other (register_service now service reg s).topics ≡ (
        if service == other
        then contains (claims_on side reg) key
        else has_edge side key other s.topics)
unfolding register_service
has_edge-register_service providing key other service reg now s =
    rw (has_edge-declare_all, has_edge-declare_all, has_edge-withdraw) (ground arith)
has_edge-register_service consuming key other service reg now s =
    rw (has_edge-declare_all, has_edge-declare_all, has_edge-withdraw) (ground arith)
