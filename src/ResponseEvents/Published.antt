-- ===== src/ResponseEvents/Published.antt =====
-- Which events are published, and what becomes of the result.
use benzene_go.Prelude.{
  String, refl, ap, inl, inr, Option, none, some, List, [], Option-cases, ◌≡◌, ◌∙◌, ◌⊎◌, ◌∷◌,
}
use benzene_go.Flow.{Go, Flow, Err, ret}
use benzene_go.Topic.{Topic}
use benzene_go.Status.{status_unexpected_error, is_success}
use benzene_go.Result.{
  ResultInfo, erase, failed, errors_from_messages, unexpected_error, fail, fail_with,
}
use benzene_go.Pipeline.{Ctx, State, Next, set_result}
use benzene_go.ResponseEvents.{
  Publication, Mapping, PublishFailureMode, fail_message, log_and_continue, EventsConfig, Publisher,
  failure_text, report_error, fail_publish, after_publish, publish_events, republish,
  events_middleware,
}

abbrev pub add_publication :
    {V : Type 0} → Option (Publication V) → List (Publication V) → List (Publication V)
add_publication none rest = rest
add_publication (some p) rest = p ∷ rest

-- All that the mappings publish for a result, in their order.
abbrev pub publications :
    {V : Type 0} → Topic → ResultInfo V → List (Mapping V) → List (Publication V)
publications topic result [] = []
publications topic result (mapping ∷ mappings) =
    add_publication (mapping.resolve topic result) (publications topic result mappings)

-- The result after a publish that failed.
abbrev pub failed_event : {V : Type 0} → (String → String) → Topic → Err → ResultInfo V
failed_event quote topic err =
    erase (λ v. v)
      (failed status_unexpected_error (errors_from_messages (failure_text quote topic err ∷ [])))

-- The world after the hook, where there is one, heard of a failed publish.
abbrev pub heard : {W : Type 0} → Option (Topic → Topic → Err → W → W) → Topic → Topic → Err → W → W
heard none source_topic event_topic err w = w
heard (some hook) source_topic event_topic err w = hook source_topic event_topic err w

module _ {C V W : Type 0} (quote : String → String) (cfg : EventsConfig W)
    (publisher : Publisher C V W) (ctx : Ctx C) where
  -- The publications, each handed to the publisher once and in order. A failure is reported; it is
  -- passed by under `LogAndContinue`, and is the last under `FailMessage`.
  pub data Published (topic : Topic) : List (Publication V) → State V W → State V W → Type 0 where
    all_published : (s : State V W) → Published topic [] s s
    accepted :
        (p : Publication V) (ps : List (Publication V)) (s s' : State V W) (w : W)
        → publisher ctx p.event_topic p.event_payload s.world ≡ (ret none, w)
        → Published topic ps (record s { world = w }) s'
        → Published topic (p ∷ ps) s s'
    lost :
        (p : Publication V) (ps : List (Publication V)) (err : Err) (s s' : State V W) (w : W)
        → publisher ctx p.event_topic p.event_payload s.world ≡ (ret (some err), w)
        → cfg.failure_mode ≡ log_and_continue
        → Published topic ps (record s { world = heard cfg.on_error topic p.event_topic err w }) s'
        → Published topic (p ∷ ps) s s'
    stopped :
        (p : Publication V) (ps : List (Publication V)) (err : Err) (s : State V W) (w : W)
        → publisher ctx p.event_topic p.event_payload s.world ≡ (ret (some err), w)
        → cfg.failure_mode ≡ fail_message
        → Published topic (p ∷ ps) s (
            set_result
              (failed_event quote p.event_topic err)
              (record s { world = heard cfg.on_error topic p.event_topic err w }))

  fail_publish-eq :
      (topic : Topic) (err : Err) (s : State V W)
      → fail_publish quote cfg publisher ctx topic err s
        ≡ (ret none, set_result (failed_event quote topic err) s)
  unfolding fail_publish unexpected_error fail fail_with is_success
  fail_publish-eq topic err s = refl

  mode-cases : (mode : PublishFailureMode) → (mode ≡ fail_message) ⊎ (mode ≡ log_and_continue)
  mode-cases fail_message = inl refl
  mode-cases log_and_continue = inr refl

  report_error-heard :
      (source topic : Topic) (err : Err) (s : State V W)
      → report_error quote cfg publisher ctx source topic err s
        ≡ record s { world = heard cfg.on_error source topic err s.world }
  report_error-heard source topic err s = elim (Option-cases cfg.on_error) [
    | inl e ↦ rw e refl
    | inr (hook, e) ↦ rw e refl
  ]

  -- The invocation stays as it is, or the last publish that was tried has set its result.
  abbrev pub Kept : State V W → State V W → Type 0
  Kept s s' =
      (s'.ic ≡ s.ic)
      ⊎ ((p : Publication V) × (err : Err) × (cfg.failure_mode ≡ fail_message)
          × (s'.ic ≡ record s.ic { result = some (failed_event quote p.event_topic err) }))

  Kept-ic : (s t s' : State V W) → t.ic ≡ s.ic → Kept t s' → Kept s s'
  Kept-ic s t s' e (inl same) = inl (same ∙ e)
  Kept-ic s t s' e (inr (p, err, mode, set)) = inr (
    p,
    err,
    mode,
    set ∙ (λ i. record (e i) { result = some (failed_event quote p.event_topic err) }),
  )

  Published-Kept :
      (topic : Topic) (ps : List (Publication V)) (s s' : State V W)
      → Published topic ps s s'
      → Kept s s'
  unfolding set_result
  Published-Kept topic _ s _ (all_published _) = inl refl
  Published-Kept topic _ s s' (accepted p ps _ _ w sent rest) =
      Kept-ic s (record s { world = w }) s' refl
        (Published-Kept topic ps (record s { world = w }) s' rest)
  Published-Kept topic _ s s' (lost p ps err _ _ w sent mode rest) =
      let reported = record s { world = heard cfg.on_error topic p.event_topic err w } in
      Kept-ic s reported s' refl (Published-Kept topic ps reported s' rest)
  Published-Kept topic _ s _ (stopped p ps err _ w sent mode) = inr (p, err, mode, refl)

  republish-some :
      (mappings : List (Mapping V)) (s : State V W) (result : ResultInfo V)
      → s.ic.result ≡ some result
      → republish quote cfg publisher ctx mappings none s
        ≡ publish_events quote cfg publisher ctx s.ic.topic result mappings s
  unfolding republish
  republish-some mappings s result left =
      ap
        (λ (found : Option (ResultInfo V)). elim found as (λ _. Flow (Option Err) × State V W) [
          | none ↦ (ret none, s)
          | some r ↦ publish_events quote cfg publisher ctx s.ic.topic r mappings s
        ])
        left

  module _ (topic : Topic) (result : ResultInfo V)
      (returns : (event : Topic) (payload : V) (w : W)
        → (err : Option Err) × (w' : W) × (publisher ctx event payload w ≡ (ret err, w'))) where
    -- The rest of the loop publishes some publications.
    abbrev Publishes : Go (State V W) (Option Err) → List (Publication V) → Type 0
    Publishes rest ps =
        (s : State V W) → (s' : State V W) × (rest s ≡ (ret none, s')) × Published topic ps s s'

    after_publish-Published :
        (p : Publication V) (ps : List (Publication V)) (rest : Go (State V W) (Option Err))
        (s : State V W) (err : Option Err) (w : W)
        → Publishes rest ps
        → publisher ctx p.event_topic p.event_payload s.world ≡ (ret err, w)
        → (s' : State V W) × (after_publish quote cfg publisher ctx topic p rest
              (ret err)
              (record s { world = w })
            ≡ (ret none, s'))
          × Published topic (p ∷ ps) s s'
    unfolding fail_publish
    after_publish-Published p ps rest s none w publishes sent =
        let (s', ran, published) = publishes (record s { world = w }) in
        (s', ran, accepted p ps s s' w sent published)
    after_publish-Published p ps rest s (some err) w publishes sent =
        let sent_on : State V W = record s { world = w } in
        let reported : State V W = record s {
          world = heard cfg.on_error topic p.event_topic err w;
        } in
        let same = report_error-heard topic p.event_topic err sent_on in
        elim (mode-cases cfg.failure_mode) [
          | inl mode ↦ (
            set_result (failed_event quote p.event_topic err) reported,
            rw mode (
                ap (fail_publish quote cfg publisher ctx p.event_topic err) same
                ∙ fail_publish-eq p.event_topic err reported),
            stopped p ps err s w sent mode,
          )
          | inr mode ↦
              let (s', ran, published) = publishes reported in
              (s', rw mode (ap rest same ∙ ran), lost p ps err s s' w sent mode published)
        ]

    publish_events-Published :
        (mappings : List (Mapping V))
        → Publishes
            (publish_events quote cfg publisher ctx topic result mappings)
            (publications topic result mappings)
    unfolding publish_events
    publish_events-Published [] s = (s, refl, all_published s)
    publish_events-Published (mapping ∷ mappings) s =
        elim (Option-cases (mapping.resolve topic result)) [
          | inl e ↦
              let (s', ran, published) = publish_events-Published mappings s in
              (s', rw (e, publish_events) ran, rw e published)
          | inr (p, e) ↦
              let (err, w, sent) = returns p.event_topic p.event_payload s.world in
              let (s', ran, published) =
                after_publish-Published p (publications topic result mappings)
                  (publish_events quote cfg publisher ctx topic result mappings) s err w
                  (publish_events-Published mappings) sent in
              (s', rw (e, publish_events) (rw sent ran), rw e published)
        ]

-- Where the next step returned without an error and left a result, and no publish panics: the
-- middleware returns no error, and each publication that the mappings resolve for that topic and
-- result is published once, in order, as if all had been resolved before; a failure is reported
-- and passed by under `LogAndContinue`, and is reported and the last publish under `FailMessage`,
-- which makes the result an unexpected error. Otherwise the invocation is what the next step left.
pub events_middleware-Published :
    {C V W : Type 0} (quote : String → String) (cfg : EventsConfig W) (publisher : Publisher C V W)
    (mappings : List (Mapping V)) (ctx : Ctx C) (next : Next C V W) (s t : State V W)
    (result : ResultInfo V)
    → ((event : Topic) (payload : V) (w : W)
        → (err : Option Err) × (w' : W) × (publisher ctx event payload w ≡ (ret err, w')))
    → next ctx s ≡ (ret none, t)
    → t.ic.result ≡ some result
    → (s' : State V W) × (events_middleware quote cfg publisher mappings ctx next s
        ≡ (ret none, s'))
      × Published quote cfg publisher ctx t.ic.topic (publications t.ic.topic result mappings) t s'
      × Kept quote cfg publisher ctx t s'
unfolding events_middleware publish_events
events_middleware-Published quote cfg publisher mappings ctx next s t result returns went left =
    let (s', ran, published) =
      publish_events-Published quote cfg publisher ctx t.ic.topic result returns mappings t in
    (
      s',
      rw (went, events_middleware)
          (republish-some quote cfg publisher ctx mappings t result left ∙ ran),
      published,
      Published-Kept quote cfg publisher ctx t.ic.topic _ t s' published,
    )
