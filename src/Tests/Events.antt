-- ===== src/Tests/Events.antt =====
-- An order that was created, published under the naming convention and by an explicit mapping, where
-- the publisher refuses the second.
use benzene_go.Prelude.{
  ℕ, refl, none, some, [], ◌+◌, ◌≡◌, ◌∷◌, if◌then◌else◌, ◌==◌, string_eq, nat_eq,
}
use benzene_go.Flow.{ret, message}
use benzene_go.Maps.{lookup}
use benzene_go.Status.{is_failure}
use benzene_go.Result.{ResultInfo, erase, created}
use benzene_go.Pipeline.{Next, State, set_result, new_invocation}
use benzene_go.ResponseEvents.{
  Mapping, EventsConfig, Publisher, fail_message, map_topic, crud_convention, events_middleware,
  crud_verb,
}
use benzene_go.ResponseEvents.Published.{Published, Kept, publications, events_middleware-Published}
use benzene_go.Tests.Routing.{ctx, begun}

crud_verb-orders : crud_verb "shop:orders:create" ≡ "create"
unfolding crud_verb
crud_verb-orders = refl

abbrev made : ResultInfo ℕ
unfolding erase created
made = erase some (created 7)

abbrev by_convention : Mapping ℕ
by_convention = crud_convention (λ text. text)

abbrev by_name : Mapping ℕ
by_name =
    map_topic (λ a b. a == b)
      (record {
        source = "orders:create";
        event = "stock:reserve";
        when = none;
        project = some (λ n. some (n + 1));
      })

crud_convention-orders :
    publications begun.ic.topic made (by_convention ∷ by_name ∷ [])
    ≡ record { event_topic = record { id = "orders:created"; version = "" }; event_payload = 7 }
      ∷ record { event_topic = record { id = "stock:reserve"; version = "" }; event_payload = 8 }
      ∷ []
unfolding crud_convention map_topic lookup new_invocation made is_failure
crud_convention-orders = refl

abbrev config : EventsConfig ℕ
config = record { failure_mode = fail_message; on_error = some (λ source event err w. w + 100) }

abbrev publisher : Publisher (Unit {0}) ℕ ℕ
publisher c event payload w =
    ((ret (if event.id == "orders:created" then none else some (message "no route"))), w + 1)

abbrev handler : Next (Unit {0}) ℕ ℕ
handler c s = (ret none, set_result made s)

events_middleware-Published_example :
    (s' : State ℕ ℕ) × (events_middleware
        (λ text. text)
        config
        publisher
        (by_convention ∷ by_name ∷ [])
        ctx
        handler
        begun
      ≡ (ret none, s'))
    × Published
        (λ text. text)
        config
        publisher
        ctx
        begun.ic.topic
        (publications begun.ic.topic made (by_convention ∷ by_name ∷ []))
        (set_result made begun)
        s'
    × Kept (λ text. text) config publisher ctx (set_result made begun) s'
unfolding set_result
events_middleware-Published_example =
    events_middleware-Published (λ text. text) config publisher (by_convention ∷ by_name ∷ []) ctx
      handler begun (set_result made begun) made (λ event payload w. (_, w + 1, refl)) refl refl
