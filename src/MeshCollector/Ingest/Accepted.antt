-- ===== src/MeshCollector/Ingest/Accepted.antt =====
-- What a batch of trace events changes: every event is counted once, and no declared edge moves.
use benzene_go.Prelude.{
  ℕ, String, refl, sym, subst, List, [], arith, length, sum_by, ◌+◌, ◌≡◌, ◌∙◌, ◌∷◌, if◌then◌else◌,
  ◌==◌, string_eq, nat_eq,
}
use benzene_go.Maps.{Map, total}
use benzene_go.Status.{is_failure}
use benzene_go.Topic.{Topic, topic_eq}
use benzene_go.MeshCollector.SpanMap.{IsSound, record_span-IsSound}
use benzene_go.Flow.{ret}
use benzene_go.MeshCollector.Spans.{TraceEvent, Spans}
use benzene_go.MeshCollector.Merging.{put_drift}
use benzene_go.MeshCollector.Ingest.Totals.{total-update_topic}
use benzene_go.MeshCollector.Ingest.Tallies.{
  AllTallied, update_topic-AllTallied, observe_consumer-IsTallied, observe_provider-IsTallied,
  count_topic-IsTallied,
}
use benzene_go.MeshCollector.Ingest.Frames.{
  IsCounter, SameEdges, update_topic-SameEdges, observe_consumer-edges_on,
  observe_provider-edges_on, IsObserved, IsNoted, note_handler-IsNoted, note_caller-IsNoted,
  count_topic-edges_on,
}
use benzene_go.MeshCollector.State.{
  EventBody, ServiceState, TopicState, CollectorStore, update_topic, ensure_service, ensure_topic,
}
use benzene_go.MeshCollector.Ingest.{
  topic_of, count_topic, count_service, observe_consumer, observe_provider, note_handler,
  note_event, add_events,
}

abbrev pub topic_invocations : TopicState → ℕ
topic_invocations topic = topic.invocations

abbrev pub service_invocations : ServiceState → ℕ
service_invocations service = service.invocations

abbrev pub service_errors : ServiceState → ℕ
service_errors service = service.errors

-- What an event adds to the counters of the services.
abbrev pub named_count : TraceEvent EventBody → ℕ
named_count event = if event.service == "" then 0 else 1

abbrev pub failed : EventBody → ℕ
failed event = if is_failure event.status then 1 else 0

abbrev pub named_failure : TraceEvent EventBody → ℕ
named_failure event = if event.service == "" then 0 else failed event.rest

-- A store after some events, compared with the store before them.
pub record IsIngested (events : List (TraceEvent EventBody)) (s s' : CollectorStore) : Type 0 where
  pub edges_same : SameEdges s.topics s'.topics
  pub tallied : AllTallied s.topics → AllTallied s'.topics
  pub topics_total :
      total topic_invocations s'.topics ≡ total topic_invocations s.topics + length events
  pub services_total :
      total service_invocations s'.services
      ≡ total service_invocations s.services + sum_by named_count events
  pub errors_total :
      total service_errors s'.services
      ≡ total service_errors s.services + sum_by named_failure events

service_invocations-IsCounter : IsCounter service_invocations
unfolding ensure_service put_drift
service_invocations-IsCounter = (refl, λ fingerprint event service. refl)

service_errors-IsCounter : IsCounter service_errors
unfolding ensure_service put_drift
service_errors-IsCounter = (refl, λ fingerprint event service. refl)

edges-IsObserved :
    (before : Map Topic TopicState) (event : EventBody) → IsObserved (SameEdges before) event
edges-IsObserved before event = (
  λ service topics.
      update_topic-SameEdges (topic_of event) (observe_consumer service event) before topics
        (observe_consumer-edges_on service event),
  λ caller topics.
      update_topic-SameEdges (topic_of event) (observe_provider caller event) before topics
        (observe_provider-edges_on caller event),
)

tallies-IsObserved : (event : EventBody) → IsObserved AllTallied event
tallies-IsObserved event = (
  λ service topics.
      update_topic-AllTallied (topic_of event) (observe_consumer service event) topics
        (observe_consumer-IsTallied service event),
  λ caller topics.
      update_topic-AllTallied (topic_of event) (observe_provider caller event) topics
        (observe_provider-IsTallied caller event),
)

invocations-IsObserved :
    (n : ℕ) (event : EventBody) → IsObserved (λ topics. total topic_invocations topics ≡ n) event
unfolding ensure_topic observe_consumer observe_provider
invocations-IsObserved n event = (
  λ service topics h. omega (
    arith,
    h,
    total-update_topic topic_invocations (observe_consumer service event) 0 refl
        (λ topic. omega arith) (topic_of event) topics,
  ),
  λ caller topics h. omega (
    arith,
    h,
    total-update_topic topic_invocations (observe_provider caller event) 0 refl
        (λ topic. omega arith) (topic_of event) topics,
  ),
)

module _ (hash : String → String) where
  -- One event, from the store in which its topic is already counted.
  note_event-IsNoted :
      (P : Map Topic TopicState → Type 0) (f : ServiceState → ℕ) (added now : ℕ) (service : String)
      (event : EventBody) (s : CollectorStore)
      → IsObserved P event
      → IsCounter f
      → ((state : ServiceState) → f (count_service now event state) ≡ f state + added)
      → IsNoted hash P f
          (if service == "" then 0 else added)
          (record s { topics = update_topic (topic_of event) (count_topic now event) s.topics })
          (note_event hash now service event s)
  unfolding note_event
  note_event-IsNoted P f added now service event s observed c counts =
      let counted = record s {
        topics = update_topic (topic_of event) (count_topic now event) s.topics;
      } in
      let handled =
        note_handler-IsNoted hash P f added now service event counted observed c counts in
      let called =
        note_caller-IsNoted hash P f service event (note_handler hash now service event counted)
          observed c in
      record {
        topics_kept = λ h. called.topics_kept (handled.topics_kept h);
        spans_kept = called.spans_kept ∙ handled.spans_kept;
        services_sum = omega (arith, called.services_sum, handled.services_sum);
      }

  note_event-IsIngested :
      (now : ℕ) (event : TraceEvent EventBody) (s : CollectorStore)
      → IsIngested (event ∷ []) s (note_event hash now event.service event.rest s)
  unfolding sum_by count_service count_topic ensure_topic
  note_event-IsIngested now event s =
      let body = event.rest in
      let key = topic_of body in
      let count = count_topic now body in
      let edges =
        note_event-IsNoted (SameEdges s.topics) service_invocations 1 now event.service body s
          (edges-IsObserved s.topics body) service_invocations-IsCounter (λ state. refl) in
      let tallies =
        note_event-IsNoted AllTallied service_errors (failed body) now event.service body s
          (tallies-IsObserved body) service_errors-IsCounter (λ state. refl) in
      let n = total topic_invocations s.topics + 1 in
      let sums =
        note_event-IsNoted (λ topics. total topic_invocations topics ≡ n) service_invocations 1 now
          event.service body s (invocations-IsObserved n body) service_invocations-IsCounter
          (λ state. refl) in
      record {
        edges_same = edges.topics_kept (
            update_topic-SameEdges key count s.topics s.topics (count_topic-edges_on now body)
              (λ side k service. refl));
        tallied = λ h.
            tallies.topics_kept
              (update_topic-AllTallied key count s.topics (count_topic-IsTallied now body) h);
        topics_total =
            sums.topics_kept
              (total-update_topic topic_invocations count 1 refl (λ topic. refl) key s.topics);
        services_total = omega (arith, edges.services_sum);
        errors_total = ground (arith, tallies.services_sum);
      }

  note_event-spans :
      (now : ℕ) (event : TraceEvent EventBody) (s : CollectorStore)
      → (note_event hash now event.service event.rest s).spans ≡ s.spans
  unfolding count_service
  note_event-spans now event s =
      (note_event-IsNoted AllTallied service_invocations 1 now event.service event.rest s
        (tallies-IsObserved event.rest) service_invocations-IsCounter (λ state. refl)).spans_kept

  IsIngested-trans :
      (event : TraceEvent EventBody) (events : List (TraceEvent EventBody)) (a b c : CollectorStore)
      → IsIngested (event ∷ []) a b
      → IsIngested events b c
      → IsIngested (event ∷ events) a c
  unfolding sum_by
  IsIngested-trans event events a b c p q = record {
    edges_same = λ side key service. q.edges_same side key service ∙ p.edges_same side key service;
    tallied = λ h. q.tallied (p.tallied h);
    topics_total = omega (arith, p.topics_total, q.topics_total);
    services_total = omega (arith, p.services_total, q.services_total);
    errors_total = omega (arith, p.errors_total, q.errors_total);
  }

  recorded-IsIngested :
      (events : List (TraceEvent EventBody)) (spans : Spans EventBody) (a b : CollectorStore)
      → IsIngested events (record a { spans = spans }) b
      → IsIngested events a b
  recorded-IsIngested events spans a b h = record {
    edges_same = h.edges_same;
    tallied = h.tallied;
    topics_total = h.topics_total;
    services_total = h.services_total;
    errors_total = h.errors_total;
  }

  -- A collector whose ring and span map are sound accepts every batch of trace events without a
  -- panic, and they are sound after it. No declared edge changes. The invocations over all topics
  -- grow by the number of events, and the invocations and errors over all services by the events,
  -- and by the failures, that name a service. If the counters of every topic agreed with its table
  -- of statuses before (all of the table, and its failures), they agree after.
  pub add_events-IsIngested :
      (capacity now : ℕ) (events : List (TraceEvent EventBody)) (s : CollectorStore)
      → IsSound capacity s.spans
      → (s' : CollectorStore) × (add_events hash capacity now events s ≡ ret s')
        × IsSound capacity s'.spans
        × IsIngested events s s'
  unfolding add_events sum_by note_event-spans
  add_events-IsIngested capacity now [] s sound = (
    s,
    refl,
    sound,
    record {
      edges_same = λ side key service. refl;
      tallied = λ h. h;
      topics_total = omega arith;
      services_total = omega arith;
      errors_total = omega arith;
    },
  )
  add_events-IsIngested capacity now (event ∷ events) s sound =
      let (spans, ran, kept) = record_span-IsSound capacity event s.spans sound in
      let recorded = record s { spans = spans } in
      let noted = note_event hash now event.service event.rest recorded in
      let (s', rest, after, all) =
        add_events-IsIngested capacity now events noted
          (subst (IsSound capacity) (sym (note_event-spans now event recorded)) kept) in
      (
        s',
        rw (ran, add_events) rest,
        after,
        IsIngested-trans event events s noted s'
            (recorded-IsIngested (event ∷ []) spans s noted
              (note_event-IsIngested now event recorded))
            all,
      )
