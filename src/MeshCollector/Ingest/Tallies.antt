-- ===== src/MeshCollector/Ingest/Tallies.antt =====
-- The counters of a topic agree with its table of statuses.
use benzene_go.Prelude.{
  ℕ, String, refl, ap, inl, inr, Bool, true, [], arith, eq_iff, Bool-cases, Option-cases, All, ◌+◌,
  ◌≡◌, ◌∷◌, if◌then◌else◌, ◌==◌, string_eq, nat_eq,
}
use benzene_go.Maps.{Map, lookup, insert, lookup-All, insert-All}
use benzene_go.Status.{Status, is_failure}
use benzene_go.Topic.{Topic, topic_eq}
use benzene_go.Mesh.Issues.{count_at}
use benzene_go.MeshCollector.Ingest.{count_status, count_topic, observe_consumer, observe_provider}
use benzene_go.MeshCollector.State.{EventBody, TopicState, update_topic, ensure_topic}

-- The sum of the counts whose status passes a test.
unfoldable pub tally : (Status → Bool) → Map Status ℕ → ℕ
tally p [] = 0
tally p ((status, n) ∷ counts) = (if p status then n else 0) + tally p counts

abbrev pub any_status : Status → Bool
any_status status = true

tally-insert :
    (p : Status → Bool) (status : Status) (n : ℕ) (counts : Map Status ℕ)
    → tally p (insert status n counts) + (if p status then count_at (lookup status counts) else 0)
      ≡ tally p counts + (if p status then n else 0)
unfolding tally insert lookup
tally-insert p status n [] = ground arith
tally-insert p status n ((other, m) ∷ counts) = elim (Bool-cases (other == status)) [
  | inl same ↦ rw same (ground (arith, ap p ((eq_iff other status).0 same)))
  | inr differs ↦ rw differs (ground (arith, tally-insert p status n counts))
]

tally-count_status :
    (p : Status → Bool) (status : Status) (counts : Map Status ℕ)
    → tally p (count_status status counts) ≡ tally p counts + (if p status then 1 else 0)
unfolding count_status
tally-count_status p status counts =
    ground (arith, tally-insert p status (count_at (lookup status counts) + 1) counts)

-- Every invocation is counted under its status, and the errors are the failures among them.
pub record IsTallied (topic : TopicState) : Type 0 where
  pub invocations_eq : tally any_status topic.status_counts ≡ topic.invocations
  pub errors_eq : tally is_failure topic.status_counts ≡ topic.errors

abbrev pub AllTallied : Map Topic TopicState → Type 0
AllTallied topics = All (λ entry. IsTallied entry.1) topics

ensure_topic-IsTallied :
    (key : Topic) (topics : Map Topic TopicState)
    → AllTallied topics
    → IsTallied (ensure_topic (lookup key topics))
unfolding ensure_topic tally
ensure_topic-IsTallied key topics h = elim (Option-cases (lookup key topics)) [
  | inl absent ↦ rw absent (record { invocations_eq = refl; errors_eq = refl })
  | inr (topic, e) ↦ rw e (lookup-All (λ k. IsTallied) key topics h e)
]

pub update_topic-AllTallied :
    (key : Topic) (change : TopicState → TopicState) (topics : Map Topic TopicState)
    → ((topic : TopicState) → IsTallied topic → IsTallied (change topic))
    → AllTallied topics
    → AllTallied (update_topic key change topics)
unfolding update_topic
update_topic-AllTallied key change topics keeps h =
    insert-All (λ k. IsTallied) key _ topics (keeps _ (ensure_topic-IsTallied key topics h)) h

pub count_topic-IsTallied :
    (now : ℕ) (event : EventBody) (topic : TopicState)
    → IsTallied topic
    → IsTallied (count_topic now event topic)
unfolding count_topic
count_topic-IsTallied now event topic h = record {
  invocations_eq =
      omega
        (arith, h.invocations_eq, tally-count_status any_status event.status topic.status_counts);
  errors_eq =
      omega (arith, h.errors_eq, tally-count_status is_failure event.status topic.status_counts);
}

pub observe_consumer-IsTallied :
    (service : String) (event : EventBody) (topic : TopicState)
    → IsTallied topic
    → IsTallied (observe_consumer service event topic)
unfolding observe_consumer
observe_consumer-IsTallied service event topic h = record {
  invocations_eq = h.invocations_eq;
  errors_eq = h.errors_eq;
}

pub observe_provider-IsTallied :
    (caller : String) (event : EventBody) (topic : TopicState)
    → IsTallied topic
    → IsTallied (observe_provider caller event topic)
unfolding observe_provider
observe_provider-IsTallied caller event topic h = record {
  invocations_eq = h.invocations_eq;
  errors_eq = h.errors_eq;
}
