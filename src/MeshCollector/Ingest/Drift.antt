-- ===== src/MeshCollector/Ingest/Drift.antt =====
-- When the traffic of a registered service is filed as contract drift.
use benzene_go.Prelude.{
  ℕ, String, refl, sym, ap, inl, inr, Bool, false, not, some, List, [], arith, Bool-cases, beq_refl,
  contains, int64, ◌+◌, ◌≡◌, ◌∙◌, ◌&&◌, ◌||◌, ◌∷◌, if◌then◌else◌, ◌==◌, string_eq, nat_eq,
}
use benzene_go.Maps.{lookup, weight, lookup-insert_self}
use benzene_go.Topic.{Topic, topic_eq}
use benzene_go.Mesh.Issues.{classification_contract_drift}
use benzene_go.Mesh.Exporter.{issue_fingerprint}
use benzene_go.MeshCollector.State.{
  Document, Registration, EventBody, CollectorStore, is_reserved, is_known_member, add_claims,
  entries_of, new_registration, ensure_service, update_service,
}
use benzene_go.MeshCollector.Edges.{register_service}
use benzene_go.MeshCollector.Merging.{drifted, put_drift, record_drift_issue}
use benzene_go.MeshCollector.Merging.Conserved.{
  issue_count, count_of, issues_at, weight-merged_or_new,
}
use benzene_go.MeshCollector.Ingest.{
  topic_of, handler_drifts, sender_drifts, registration_of, check_handler_drift, check_sender_drift,
}

-- A topic that a document can claim: it has a name, and not a reserved one.
abbrev pub claimable : Topic → Bool
claimable key = not (key.id == "") && not (is_reserved key.id)

-- Adding an element that passes a test, unless it is there.
contains-added :
    (p : Topic → Bool) (entry key : Topic) (set : List Topic)
    → contains (if p entry && not (contains set entry) then entry ∷ set else set) key
      ≡ (contains set key || (p key && key == entry))
contains-added p entry key set = elim (Bool-cases (key == entry)) [
  | inl same ↦
      let e = (topic_eq.equal_iff key entry).0 same in
      rw same (rw e (ground (arith, beq_refl entry)))
  | inr other ↦ rw other (ground (arith, other))
]

-- The same for all elements of a list, as `add_claims` does it.
claim_by : (Topic → Bool) → List Topic → List Topic → List Topic
claim_by p [] set = set
claim_by p (entry ∷ entries) set =
    claim_by p entries (if p entry && not (contains set entry) then entry ∷ set else set)

add_claims-claim_by :
    (entries set : List Topic) → add_claims entries set ≡ claim_by claimable entries set
unfolding add_claims claim_by
add_claims-claim_by [] set = refl
add_claims-claim_by (entry ∷ entries) set = add_claims-claim_by entries _

contains-claim_by :
    (p : Topic → Bool) (entries set : List Topic) (key : Topic)
    → contains (claim_by p entries set) key ≡ (contains set key || (p key && contains entries key))
unfolding claim_by
contains-claim_by p [] set key = ground arith
contains-claim_by p (entry ∷ entries) set key =
    contains-claim_by p entries (if p entry && not (contains set entry) then entry ∷ set else set)
      key
    ∙ ap (λ b. b || (p key && contains entries key)) (contains-added p entry key set)
    ∙ regroup (contains set key) (p key) (key == entry) (contains entries key)
  where
    regroup : (a b c d : Bool) → ((a || (b && c)) || (b && d)) ≡ (a || (b && (c || d)))
    regroup a b c d = ground arith

contains-add_claims :
    (entries set : List Topic) (key : Topic)
    → contains (add_claims entries set) key
      ≡ (contains set key || (claimable key && contains entries key))
contains-add_claims entries set key =
    ap (λ l. contains l key) (add_claims-claim_by entries set)
    ∙ contains-claim_by claimable entries set key

-- What the document of a registration says of a topic: the member is known, and does not list it.
abbrev pub undeclared_request : Document → Topic → Bool
undeclared_request doc key =
    is_known_member "requests" doc.degraded doc.requests
    && claimable key
    && not (contains (entries_of doc.requests) key)

handler_drifts-new_registration :
    (event : EventBody) (doc : Document) (raw : String)
    → (event.topic == "") ≡ false
    → handler_drifts event (some (new_registration doc raw))
      ≡ undeclared_request doc (topic_of event)
unfolding handler_drifts new_registration
handler_drifts-new_registration event doc raw named =
    ground (arith, named, contains-add_claims (entries_of doc.requests) [] (topic_of event))

abbrev pub undeclared_send : Document → Topic → Bool
undeclared_send doc key =
    is_known_member "events" doc.degraded doc.events
    && is_known_member "sends" doc.degraded doc.sends
    && claimable key
    && not (contains (entries_of doc.events) key || contains (entries_of doc.sends) key)

sender_drifts-new_registration :
    (event : EventBody) (doc : Document) (raw : String)
    → (event.topic == "") ≡ false
    → sender_drifts event (some (new_registration doc raw)) ≡ undeclared_send doc (topic_of event)
unfolding sender_drifts new_registration
sender_drifts-new_registration event doc raw named = ground (
  arith,
  named,
  contains-add_claims (entries_of doc.sends) (add_claims (entries_of doc.events) [])
      (topic_of event),
  contains-add_claims (entries_of doc.events) [] (topic_of event),
)

registration_of-register_service :
    (now : ℕ) (service : String) (reg : Registration) (s : CollectorStore)
    → registration_of (lookup service (register_service now service reg s).services) ≡ some reg
unfolding register_service update_service
registration_of-register_service now service reg s =
    ap registration_of (lookup-insert_self service _ s.services)

module _ (hash : String → String) where
  -- The fingerprint under which the drift of an event is filed.
  abbrev pub drift_fingerprint : String → EventBody → String
  drift_fingerprint service event =
      issue_fingerprint hash service event.topic event.topic_version classification_contract_drift
        event.status

  abbrev pub drift_count : String → EventBody → CollectorStore → ℕ
  drift_count service event s = count_of (drift_fingerprint service event) (issues_at service s)

  drift_count-record_drift_issue :
      (service : String) (event : EventBody) (s : CollectorStore)
      → drift_count service event (record_drift_issue hash service event s)
        ≡ int64 (drift_count service event s + 1)
  unfolding record_drift_issue put_drift drifted update_service
  drift_count-record_drift_issue service event s =
      let issues = issues_at service s in
      let fingerprint = drift_fingerprint service event in
      ap (λ o. count_of fingerprint (ensure_service o).issues)
        (lookup-insert_self service _ s.services)
      ∙ unfold ensure_service in
        ap (weight issue_count) (lookup-insert_self fingerprint _ issues)
        ∙ ap (λ n. int64 (n + 1)) (sym (weight-merged_or_new (lookup fingerprint issues)))

  -- After a service registered a document, an event on a named topic that the service handled is
  -- filed under its drift fingerprint once more, in a count that wraps around as an `int64` does,
  -- exactly if the document states its requests, does not call them degraded, does not list the
  -- topic at that version, and the topic is not reserved.
  pub check_handler_drift-register_service :
      (now : ℕ) (service raw : String) (doc : Document) (event : EventBody) (s : CollectorStore)
      → (event.topic == "") ≡ false
      → let registered = register_service now service (new_registration doc raw) s in
        drift_count service event (check_handler_drift hash service event registered) ≡ (
          if undeclared_request doc (topic_of event)
          then int64 (drift_count service event registered + 1)
          else drift_count service event registered)
  unfolding check_handler_drift
  check_handler_drift-register_service now service raw doc event s named =
      let reg = new_registration doc raw in
      let registered = register_service now service reg s in
      rw
        (
          registration_of-register_service now service reg s,
          handler_drifts-new_registration event doc raw named,
        )
        (elim (Bool-cases (undeclared_request doc (topic_of event))) [
          | inl flagged ↦ rw flagged (drift_count-record_drift_issue service event registered)
          | inr clean ↦ rw clean refl
        ])

  pub check_sender_drift-register_service :
      (now : ℕ) (caller raw : String) (doc : Document) (event : EventBody) (s : CollectorStore)
      → (event.topic == "") ≡ false
      → let registered = register_service now caller (new_registration doc raw) s in
        drift_count caller event (check_sender_drift hash caller event registered) ≡ (
          if undeclared_send doc (topic_of event)
          then int64 (drift_count caller event registered + 1)
          else drift_count caller event registered)
  unfolding check_sender_drift
  check_sender_drift-register_service now caller raw doc event s named =
      let reg = new_registration doc raw in
      let registered = register_service now caller reg s in
      rw
        (
          registration_of-register_service now caller reg s,
          sender_drifts-new_registration event doc raw named,
        )
        (elim (Bool-cases (undeclared_send doc (topic_of event))) [
          | inl flagged ↦ rw flagged (drift_count-record_drift_issue caller event registered)
          | inr clean ↦ rw clean refl
        ])
