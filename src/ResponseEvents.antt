-- ===== src/ResponseEvents.antt =====
-- responseevents/: the middleware that publishes a handler's payload as follow-up events, and the
-- two stock mappings. `strings.EqualFold`, `strings.ToLower`, the `%q` verb and a mapping's own
-- functions are parameters; `none` is a nil payload. `Description` is left out. A publisher and the hook write the world.
pub mod Published
use benzene_go.Prelude.{
  String, Bool, true, false, not, Option, none, some, List, [], nat_beq, is_some, ◌∷◌, ◌++◌,
  if◌then◌else◌, ◌==◌, string_eq, nat_eq,
}
use benzene_go.Flow.{Go, Flow, Err, ret, panic, error_text, ◌>>=◌}
use benzene_go.Maps.{Map, lookup}
use benzene_go.Topic.{Topic, new_topic, to_string}
use benzene_go.Status.{Status, status_created, status_updated, status_deleted, is_success}
use benzene_go.Result.{ResultInfo, erase, fail, fail_with, unexpected_error}
use benzene_go.Pipeline.{Ctx, State, Middleware, set_result}
use benzene_go.Resilience.{result_successful}
use Prim.Native.Char.{code}
use Prim.Native.String

pub record Publication (V : Type 0) : Type 0 where
  pub event_topic : Topic
  pub event_payload : V

-- The interface `Mapping`.
pub record Mapping (V : Type 0) : Type 0 where
  pub resolve : Topic → ResultInfo V → Option (Publication V)
  pub covers : Topic → Bool

-- What `When` and `Project` set; `none` where they are not given.
pub record ExplicitMapping (V : Type 0) : Type 0 where
  pub source : String
  pub event : String
  pub when : Option (ResultInfo V → Bool)
  pub project : Option (V → Option V)

has_colon : String → Bool
has_colon String.[] = false
has_colon (String.◌∷◌ c s) =
    let rest = has_colon s in if nat_beq (code c) (code ":") then true else rest

-- `crudVerb`: the text behind the last colon, or all of it.
unfoldable pub crud_verb : String → String
unfolding has_colon
crud_verb String.[] = ""
crud_verb (String.◌∷◌ c s) =
    let rest = crud_verb s in
    if has_colon s then rest else if nat_beq (code c) (code ":") then s else String.◌∷◌ c s

abbrev pub crud_verb_to_status : Map String Status
crud_verb_to_status =
    ("create", status_created) ∷ ("update", status_updated) ∷ ("delete", status_deleted) ∷ []

module _ {V : Type 0} where
  abbrev publication : String → Option V → Option (Publication V)
  publication topic none = none
  publication topic (some v) = some (record { event_topic = new_topic topic; event_payload = v })

  abbrev projected : Option (V → Option V) → Option V → Option V
  projected none payload = payload
  projected (some project) none = none
  projected (some project) (some v) = project v

  abbrev fires : Option (ResultInfo V → Bool) → ResultInfo V → Bool
  unfolding result_successful
  fires none result = result_successful (some result)
  fires (some when) result = when result

  -- `explicitMapping.Resolve`
  unfoldable pub explicit_resolve :
      (String → String → Bool) → ExplicitMapping V → Topic → ResultInfo V → Option (Publication V)
  unfolding fires new_topic
  explicit_resolve equal_fold m source_topic result =
      if not (equal_fold source_topic.id m.source)
      then none
      else if not (fires m.when result)
      then none
      else publication m.event (projected m.project result.result_payload)

  -- `Map`, with its options applied.
  unfoldable pub map_topic : (String → String → Bool) → ExplicitMapping V → Mapping V
  unfolding explicit_resolve
  map_topic equal_fold m = record {
    resolve = explicit_resolve equal_fold m;
    covers = λ source_topic. equal_fold source_topic.id m.source;
  }

  -- `crudMapping.Resolve`
  unfoldable pub crud_resolve : (String → String) → Topic → ResultInfo V → Option (Publication V)
  unfolding crud_verb new_topic
  crud_resolve to_lower source_topic result =
      elim (lookup (to_lower (crud_verb source_topic.id)) crud_verb_to_status) [
        | none ↦ none
        | some required ↦
            if not (result.result_status == required)
            then none
            else publication (String.◌++◌ source_topic.id "d") result.result_payload
      ]

  -- `CrudConvention`
  unfoldable pub crud_convention : (String → String) → Mapping V
  unfolding crud_resolve crud_verb
  crud_convention to_lower = record {
    resolve = crud_resolve to_lower;
    covers =
        λ source_topic. is_some (lookup (to_lower (crud_verb source_topic.id)) crud_verb_to_status);
  }

pub data PublishFailureMode : Type 0 where
  fail_message log_and_continue : PublishFailureMode

pub record EventsConfig (W : Type 0) : Type 0 where
  pub failure_mode : PublishFailureMode
  pub on_error : Option (Topic → Topic → Err → W → W)

-- The text of a failed publish, with `quote` for `%q`.
abbrev pub failure_text : (String → String) → Topic → Err → String
unfolding to_string
failure_text quote topic err =
    String.◌++◌ "failed to publish response event "
      (String.◌++◌ (quote (to_string topic)) (String.◌++◌ ": " (error_text err)))

abbrev pub Publisher : Type 0 → Type 0 → Type 0 → Type 0
Publisher C V W = Ctx C → Topic → V → Go W (Option Err)

module _ {C V W : Type 0} (quote : String → String) (cfg : EventsConfig W)
    (publisher : Publisher C V W) (ctx : Ctx C) where
  abbrev pub report_error : Topic → Topic → Err → State V W → State V W
  report_error source_topic event_topic err s = elim cfg.on_error [
    | none ↦ s
    | some hook ↦ record s { world = hook source_topic event_topic err s.world }
  ]

  abbrev pub fail_publish : Topic → Err → Go (State V W) (Option Err)
  unfolding unexpected_error fail fail_with is_success to_string
  fail_publish topic err s =
      elim (unexpected_error {A = Option V} (failure_text quote topic err ∷ [])) [
        | ret result ↦ (ret none, set_result (erase (λ v. v) result) s)
        | panic text ↦ (panic text, s)
      ]

  -- What one publish left, and then the mappings that remain.
  abbrev pub after_publish :
      Topic
      → Publication V
      → Go (State V W) (Option Err)
      → Flow (Option Err)
      → Go (State V W) (Option Err)
  after_publish source_topic p rest (panic text) s = (panic text, s)
  after_publish source_topic p rest (ret none) s = rest s
  after_publish source_topic p rest (ret (some err)) s =
      let reported = report_error source_topic p.event_topic err s in
      elim cfg.failure_mode [
        | fail_message ↦ fail_publish p.event_topic err reported
        | log_and_continue ↦ rest reported
      ]

  abbrev pub publish_one :
      Topic → Publication V → Go (State V W) (Option Err) → Go (State V W) (Option Err)
  publish_one source_topic p rest s =
      let sent = publisher ctx p.event_topic p.event_payload s.world in
      after_publish source_topic p rest sent.0 (record s { world = sent.1 })

  -- The loop over the mappings.
  unfoldable pub publish_events :
      Topic → ResultInfo V → List (Mapping V) → Go (State V W) (Option Err)
  publish_events source_topic result [] s = (ret none, s)
  publish_events source_topic result (mapping ∷ mappings) s =
      elim (mapping.resolve source_topic result) [
        | none ↦ publish_events source_topic result mappings s
        | some p ↦ publish_one source_topic p (publish_events source_topic result mappings) s
      ]

  abbrev pub republish : List (Mapping V) → Option Err → Go (State V W) (Option Err)
  unfolding publish_events
  republish mappings (some err) s = (ret (some err), s)
  republish mappings none s = elim s.ic.result [
    | none ↦ (ret none, s)
    | some result ↦ publish_events s.ic.topic result mappings s
  ]

-- `Middleware`
unfoldable pub events_middleware :
    {C V W : Type 0}
    → (String → String)
    → EventsConfig W
    → Publisher C V W
    → List (Mapping V)
    → Middleware C V W
unfolding publish_events
events_middleware quote cfg publisher mappings ctx next =
    next ctx >>= republish quote cfg publisher ctx mappings
