-- ===== src/MeshCollector/Ingest/Frames.antt =====
-- What one trace event changes in each part of the store, beside its own counts.
use benzene_go.Prelude.{
  ℕ, String, refl, sym, ap, subst, inl, inr, Option, none, some, arith, Bool-cases, is_some, ◌+◌,
  ◌≡◌, ◌∙◌, ◌||◌, if◌then◌else◌, ◌==◌, string_eq, nat_eq,
}
use benzene_go.Maps.{Map, lookup, total}
use benzene_go.Topic.{Topic, topic_eq}
use benzene_go.MeshCollector.Merging.{put_drift, record_drift_issue}
use benzene_go.MeshCollector.Edges.{Side, providing, consuming, edges_on, has_edge}
use benzene_go.MeshCollector.Edges.Claims.{has_edge-insert, ensure_topic-has_edge}
use benzene_go.MeshCollector.Ingest.Totals.{total-update_service}
use benzene_go.MeshCollector.State.{
  EventBody, ServiceState, TopicState, CollectorStore, update_service, update_topic, ensure_service,
  ensure_topic,
}
use benzene_go.MeshCollector.Ingest.{
  topic_of, count_topic, count_service, observe_consumer, observe_provider, handler_drifts,
  sender_drifts, registration_of, check_handler_drift, check_sender_drift, note_handler,
  note_sender, note_caller,
}

-- Two stores with the same topics, the same spans and the same sum over the services.
record IsSame (f : ServiceState → ℕ) (s s' : CollectorStore) : Type 0 where
  topics_eq : s'.topics ≡ s.topics
  spans_eq : s'.spans ≡ s.spans
  services_eq : total f s'.services ≡ total f s.services

-- A number of a service that `newServiceState` sets to 0 and a drift issue leaves alone.
abbrev pub IsCounter : (ServiceState → ℕ) → Type 0
IsCounter f =
    (f (ensure_service none) ≡ 0)
    × ((fingerprint : String) (event : EventBody) (service : ServiceState)
        → f (put_drift fingerprint event service) ≡ f service)

-- Every edge on every side of every topic is as it was.
abbrev pub SameEdges : Map Topic TopicState → Map Topic TopicState → Type 0
SameEdges before after =
    (side : Side) (key : Topic) (service : String)
    → has_edge side key service after ≡ has_edge side key service before

pub update_topic-SameEdges :
    (k : Topic) (change : TopicState → TopicState) (before topics : Map Topic TopicState)
    → ((side : Side) (topic : TopicState) → edges_on side (change topic) ≡ edges_on side topic)
    → SameEdges before topics
    → SameEdges before (update_topic k change topics)
unfolding update_topic
update_topic-SameEdges k change before topics keeps h side key service =
    let topic = ensure_topic (lookup k topics) in
    has_edge-insert side key k service (change topic) topics ∙ elim (Bool-cases (k == key)) [
      | inl same ↦ rw same (
          ap (λ m. is_some (lookup service m)) (keeps side topic)
          ∙ ensure_topic-has_edge side k service topics
          ∙ ap (λ j. has_edge side j service topics) ((topic_eq.equal_iff k key).0 same)
          ∙ h side key service)
      | inr other ↦ rw other (h side key service)
    ]

pub count_topic-edges_on :
    (now : ℕ) (event : EventBody) (side : Side) (topic : TopicState)
    → edges_on side (count_topic now event topic) ≡ edges_on side topic
unfolding edges_on count_topic
count_topic-edges_on now event providing topic = refl
count_topic-edges_on now event consuming topic = refl

pub observe_consumer-edges_on :
    (service : String) (event : EventBody) (side : Side) (topic : TopicState)
    → edges_on side (observe_consumer service event topic) ≡ edges_on side topic
unfolding edges_on observe_consumer
observe_consumer-edges_on service event providing topic = refl
observe_consumer-edges_on service event consuming topic = refl

pub observe_provider-edges_on :
    (caller : String) (event : EventBody) (side : Side) (topic : TopicState)
    → edges_on side (observe_provider caller event topic) ≡ edges_on side topic
unfolding edges_on observe_provider
observe_provider-edges_on caller event providing topic = refl
observe_provider-edges_on caller event consuming topic = refl

-- What the observations of an event may change of the topics.
abbrev pub IsObserved : (Map Topic TopicState → Type 0) → EventBody → Type 0
IsObserved P event =
    ((service : String) (topics : Map Topic TopicState)
      → P topics
      → P (update_topic (topic_of event) (observe_consumer service event) topics))
    × ((caller : String) (topics : Map Topic TopicState)
        → P topics
        → P (update_topic (topic_of event) (observe_provider caller event) topics))

module _ (hash : String → String) where
  put_drift-total :
      (f : ServiceState → ℕ)
      → IsCounter f
      → (fingerprint service : String) (event : EventBody) (services : Map String ServiceState)
      → total f (update_service service (put_drift fingerprint event) services) ≡ total f services
  put_drift-total f (empty, keeps) fingerprint service event services = omega (
    arith,
    total-update_service f (put_drift fingerprint event) 0 empty
        (λ state. omega (arith, keeps fingerprint event state)) service services,
  )

  record_drift_issue-IsSame :
      (f : ServiceState → ℕ)
      → IsCounter f
      → (service : String) (event : EventBody) (s : CollectorStore)
      → IsSame f s (record_drift_issue hash service event s)
  unfolding record_drift_issue
  record_drift_issue-IsSame f c service event s = record {
    topics_eq = refl;
    spans_eq = refl;
    services_eq = put_drift-total f c _ service event s.services;
  }

  IsSame-refl : (f : ServiceState → ℕ) (s : CollectorStore) → IsSame f s s
  IsSame-refl f s = record { topics_eq = refl; spans_eq = refl; services_eq = refl }

  check_handler_drift-IsSame :
      (f : ServiceState → ℕ)
      → IsCounter f
      → (service : String) (event : EventBody) (s : CollectorStore)
      → IsSame f s (check_handler_drift hash service event s)
  unfolding check_handler_drift
  check_handler_drift-IsSame f c service event s =
      elim (Bool-cases (handler_drifts event (registration_of (lookup service s.services)))) [
        | inl flagged ↦ rw flagged (record_drift_issue-IsSame f c service event s)
        | inr clean ↦ rw clean (IsSame-refl f s)
      ]

  check_sender_drift-IsSame :
      (f : ServiceState → ℕ)
      → IsCounter f
      → (caller : String) (event : EventBody) (s : CollectorStore)
      → IsSame f s (check_sender_drift hash caller event s)
  unfolding check_sender_drift
  check_sender_drift-IsSame f c caller event s =
      elim (Bool-cases (sender_drifts event (registration_of (lookup caller s.services)))) [
        | inl flagged ↦ rw flagged (record_drift_issue-IsSame f c caller event s)
        | inr clean ↦ rw clean (IsSame-refl f s)
      ]

  -- What the part of the loop for the service of an event does to the three parts of the store.
  pub record IsNoted (P : Map Topic TopicState → Type 0) (f : ServiceState → ℕ) (n : ℕ)
      (s s' : CollectorStore) : Type 0 where
    pub topics_kept : P s.topics → P s'.topics
    pub spans_kept : s'.spans ≡ s.spans
    pub services_sum : total f s'.services ≡ total f s.services + n

  pub note_handler-IsNoted :
      (P : Map Topic TopicState → Type 0) (f : ServiceState → ℕ) (added now : ℕ) (service : String)
      (event : EventBody) (s : CollectorStore)
      → IsObserved P event
      → IsCounter f
      → ((state : ServiceState) → f (count_service now event state) ≡ f state + added)
      → IsNoted P f (if service == "" then 0 else added) s (note_handler hash now service event s)
  unfolding note_handler
  note_handler-IsNoted P f added now service event s observed c counts =
      elim (Bool-cases (service == "")) [
        | inl anonymous ↦
            rw anonymous
              (record { topics_kept = λ h. h; spans_kept = refl; services_sum = omega arith })
        | inr named ↦
            let same = check_handler_drift-IsSame f c service event (record s {
              services = update_service service (count_service now event) s.services;
              topics = update_topic (topic_of event) (observe_consumer service event) s.topics;
            }) in
            rw named (record {
              topics_kept = λ h. subst P (sym same.topics_eq) (observed.0 service s.topics h);
              spans_kept = same.spans_eq;
              services_sum =
                  same.services_eq
                  ∙ total-update_service f (count_service now event) added c.0 counts service
                      s.services;
            })
      ]

  note_sender-IsNoted :
      (P : Map Topic TopicState → Type 0) (f : ServiceState → ℕ) (service : String)
      (event : EventBody) (found : Option String) (s : CollectorStore)
      → IsObserved P event
      → IsCounter f
      → IsNoted P f 0 s (note_sender hash service event found s)
  unfolding note_sender
  note_sender-IsNoted P f service event none s observed c = record {
    topics_kept = λ h. h;
    spans_kept = refl;
    services_sum = omega arith;
  }
  note_sender-IsNoted P f service event (some caller) s observed c =
      elim (Bool-cases (caller == "" || caller == service)) [
        | inl skipped ↦
            rw skipped
              (record { topics_kept = λ h. h; spans_kept = refl; services_sum = omega arith })
        | inr other ↦
            let same = check_sender_drift-IsSame f c caller event (record s {
              topics = update_topic (topic_of event) (observe_provider caller event) s.topics;
            }) in
            rw other (record {
              topics_kept = λ h. subst P (sym same.topics_eq) (observed.1 caller s.topics h);
              spans_kept = same.spans_eq;
              services_sum = omega (arith, same.services_eq);
            })
      ]

  pub note_caller-IsNoted :
      (P : Map Topic TopicState → Type 0) (f : ServiceState → ℕ) (service : String)
      (event : EventBody) (s : CollectorStore)
      → IsObserved P event
      → IsCounter f
      → IsNoted P f 0 s (note_caller hash service event s)
  unfolding note_caller
  note_caller-IsNoted P f service event s observed c =
      elim (Bool-cases (event.parent_span_id == "")) [
        | inl root ↦
            rw root (record { topics_kept = λ h. h; spans_kept = refl; services_sum = omega arith })
        | inr child ↦ rw child (
            note_sender-IsNoted P f service event (lookup event.parent_span_id s.spans.span_service)
              s observed c)
      ]
