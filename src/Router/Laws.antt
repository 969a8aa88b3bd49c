-- ===== src/Router/Laws.antt =====
-- The router always goes on to the next step, and what it leaves on the invocation.
use Prim.Native.String
use benzene_go.Prelude.{
  ℕ, String, refl, sym, ap, subst, inl, inr, true, false, not, Option, none, some, [], arith,
  Bool-cases, ◌≡◌, ◌∙◌, ◌&&◌, ◌∷◌, if◌then◌else◌, ◌==◌, string_eq, nat_eq,
}
use benzene_go.Flow.{Err, Flow, ret, panic, pure, error_text}
use benzene_go.Topic.{Topic}
use benzene_go.Status.{
  Status, status_ok, status_not_found, status_service_unavailable, status_bad_request, is_failure,
}
use benzene_go.Result.{
  ResultInfo, is_unmatched_topic, erase, validation_error, failed, errors_from_messages,
}
use benzene_go.Registry.{
  Registry, Selection, selected, unknown_topic, unknown_version, no_default, select,
}
use benzene_go.Registry.Invariant.{IsValid, serving}
use benzene_go.Registry.Choice.{wanted, at_version, reason, chosen, select-wanted}
use benzene_go.Pipeline.{Ctx, State, Next, Invocation}
use benzene_go.Router.{
  Strings, Reply, answered, refused, ErasedHandler, dispatch, call, handler_ctx, put_result,
  respond, router, resolve_topic, key_or_default, set_topic, ping_topic,
}

-- A failed `Result[any]` with one message, as the interface shows it.
abbrev pub Fails : {V : Type 0} → Status → String → Option (ResultInfo V) → Type 0
Fails status text none = ⊥
Fails status text (some r) =
    (r.result_status ≡ status)
    × (r.result_errors ≡ text ∷ [])
    × (r.result_is_successful ≡ some false)

-- What `dispatch` makes of the way a handler ended.
abbrev pub Settles : {V : Type 0} → Flow (Reply V) → Option (ResultInfo V) → Type 0
Settles (ret (answered r)) result = result ≡ r
Settles (ret (refused err)) result = Fails status_bad_request (error_text err) result
Settles (panic text) result =
    Fails status_service_unavailable (String.◌++◌ "handler panicked: " text) result

failure : {V : Type 0} → Status → String → Option (ResultInfo V)
unfolding erase
failure status text = some (erase (λ v. v) (failed status (errors_from_messages (text ∷ []))))

failure-Fails :
    (V : Type 0) (status : Status) (text : String) → Fails {V = V} status text (failure status text)
unfolding failure errors_from_messages
failure-Fails V status text = (refl, refl, refl)

settled : {V : Type 0} → Flow (Reply V) → Option (ResultInfo V)
settled (ret (answered r)) = r
settled (ret (refused err)) = failure status_bad_request (error_text err)
settled (panic text) = failure status_service_unavailable (String.◌++◌ "handler panicked: " text)

settled-Settles : {V : Type 0} (reply : Flow (Reply V)) → Settles reply (settled reply)
unfolding settled
settled-Settles (ret (answered r)) = refl
settled-Settles (ret (refused err)) = failure-Fails _ status_bad_request (error_text err)
settled-Settles (panic text) = failure-Fails _ status_service_unavailable _

resolve_topic-id :
    {V : Type 0} (lib : Strings) (key : String) (ic : Invocation V)
    → (resolve_topic lib key ic).id ≡ ic.topic.id
unfolding resolve_topic
resolve_topic-id lib key ic = ground arith

module _ {C V W : Type 0} where
  dispatch-settled :
      (ctx : Ctx C) (handler : Option (ErasedHandler C V W)) (request : Option V) (s : State V W)
      → dispatch ctx handler request s
        ≡ (ret (settled (call handler ctx request s).0), (call handler ctx request s).1)
  unfolding dispatch settled failure
  dispatch-settled ctx handler request s = go (call handler ctx request s) refl
    where
      go :
          (p : Flow (Reply V) × State V W)
          → call handler ctx request s ≡ p
          → dispatch ctx handler request s
            ≡ (ret (settled (call handler ctx request s).0), (call handler ctx request s).1)
      go (ret (answered r), s') e = rw (e, dispatch) refl
      go (ret (refused err), s') e = rw (e, dispatch) refl
      go (panic text, s') e = rw (e, dispatch) refl

  -- Whatever the handler does, `dispatch` returns, and keeps the state that the handler left: the
  -- result is the handler's own where it returned one, a failed bad-request with the error's text
  -- where it returned an error, and a failed service-unavailable with the panic's text where it
  -- panicked.
  pub dispatch-Settles :
      (ctx : Ctx C) (handler : Option (ErasedHandler C V W)) (request : Option V) (s : State V W)
      → (result : Option (ResultInfo V)) × (dispatch ctx handler request s
          ≡ (ret result, (call handler ctx request s).1))
        × Settles (call handler ctx request s).0 result
  dispatch-Settles ctx handler request s =
      (settled _, dispatch-settled ctx handler request s, settled-Settles _)

  -- The step between the version and `next`.
  respond-ret :
      (lib : Strings) (found : Selection (ErasedHandler C V W)) (ctx : Ctx C) (t : Topic)
      (s : State V W)
      → respond lib found ctx t s ≡ (ret tt, (respond lib found ctx t s).1)
  unfolding respond
  respond-ret lib (selected handler) ctx t s =
      rw (dispatch-settled (handler_ctx ctx s.ic.scope) handler s.ic.request s) refl
  respond-ret lib unknown_topic ctx t s = elim (Bool-cases (t.id == ping_topic)) [
    | inl ping ↦ rw ping refl
    | inr other ↦ rw other refl
  ]
  respond-ret lib unknown_version ctx t s = refl
  respond-ret lib no_default ctx t s = refl

  abbrev stop : Next C V W
  stop ctx = pure none

  module _ (lib : Strings) (registry : Registry (ErasedHandler C V W)) (key : String)
      (ctx : Ctx C) where
    abbrev resolved : State V W → Topic
    resolved s = resolve_topic lib (key_or_default key) s.ic

    abbrev responded : State V W → State V W
    responded s =
        (respond lib (select registry (resolved s)) ctx (resolved s) (set_topic (resolved s) s)).1

    router_named :
        (next : Next C V W) (s : State V W)
        → (s.ic.topic.id == "") ≡ false
        → router lib registry key ctx next s ≡ next ctx (responded s)
    unfolding router
    router_named next s named = rw named (rw respond-ret refl)

    router_missing :
        (next : Next C V W) (s : State V W)
        → (s.ic.topic.id == "") ≡ true
        → router lib registry key ctx next s
          ≡ next ctx (put_result (validation_error ("topic is missing" ∷ [])) s).1
    unfolding router
    router_missing next s missing = rw missing refl

    -- The state in which the router calls the next step.
    pub routed : State V W → State V W
    routed s = (router lib registry key ctx stop s).1

    -- On every branch, the router ends by calling the next step once, with the context that it was
    -- given and in a state that does not depend on that step.
    pub router-next :
        (next : Next C V W) (s : State V W)
        → router lib registry key ctx next s ≡ next ctx (routed s)
    unfolding routed
    router-next next s = elim (Bool-cases (s.ic.topic.id == "")) [
      | inl missing ↦
          router_missing next s missing
          ∙ ap (next ctx) (
              sym (ap (λ (p : Flow (Option Err) × State V W). p.1) (router_missing stop s missing)))
      | inr named ↦
          router_named next s named
          ∙ ap (next ctx)
              (sym (ap (λ (p : Flow (Option Err) × State V W). p.1) (router_named stop s named)))
    ]

    pub routed_named : (s : State V W) → (s.ic.topic.id == "") ≡ false → routed s ≡ responded s
    unfolding routed
    routed_named s named =
        ap (λ (p : Flow (Option Err) × State V W). p.1) (router_named stop s named)

    -- The result that a topic with no handler at the wanted version gets.
    abbrev pub IsUnserved : ℕ → String → Option (ResultInfo V) → Type 0
    IsUnserved handlers id none = ⊥
    IsUnserved handlers id (some r) =
        (r.result_status
          ≡ (if handlers == 0 && id == ping_topic then status_ok else status_not_found))
        × (r.result_is_successful ≡ some (handlers == 0 && id == ping_topic))
        × (is_unmatched_topic r ≡ (handlers == 0 && not (id == ping_topic)))

    abbrev Unserved : ℕ → String → State V W → State V W → Type 0
    Unserved handlers id s s' = IsUnserved handlers id s'.ic.result × (s'.world ≡ s.world)

    reason-Unserved :
        (t : Topic) (s : State V W)
        → Unserved
            (serving t.id registry.handlers)
            t.id
            s
            (respond lib (reason registry t) ctx t s).1
    unfolding respond reason is_unmatched_topic is_failure
    reason-Unserved t s = elim (Bool-cases (serving t.id registry.handlers == 0)) [
      | inl zero_handlers ↦ elim (Bool-cases (t.id == ping_topic)) [
        | inl ping ↦ rw (zero_handlers, ping) (rw (zero_handlers, ping) ((refl, refl, refl), refl))
        | inr other ↦
            rw (zero_handlers, other) (rw (zero_handlers, other) ((refl, refl, refl), refl))
      ]
      | inr some_handlers ↦ elim (Bool-cases (t.version == "")) [
        | inl bare ↦ rw (some_handlers, bare) (rw some_handlers ((refl, refl, refl), refl))
        | inr versioned ↦
            rw (some_handlers, versioned) (rw some_handlers ((refl, refl, refl), refl))
      ]
    ]

    -- Over a valid registry, a message with a topic id whose wanted version has no handler gets a
    -- failed not-found result, marked as unmatched exactly where the id has no registration at
    -- all, and the world stays as it was; but the ping topic with no registration gets a
    -- successful ok.
    pub router-IsUnserved :
        (s : State V W)
        → IsValid registry
        → (s.ic.topic.id == "") ≡ false
        → at_version registry (resolved s) (wanted registry (resolved s)) ≡ none
        → IsUnserved (serving s.ic.topic.id registry.handlers) s.ic.topic.id (routed s).ic.result
          × ((routed s).world ≡ s.world)
    router-IsUnserved s valid named none_there =
        let t = resolved s in
        let why : select registry t ≡ reason registry t =
          select-wanted registry t valid ∙ ap (λ o. chosen o (reason registry t)) none_there in
        rw (routed_named s named) (
          subst
            (λ found.
              Unserved (serving s.ic.topic.id registry.handlers) s.ic.topic.id s
                (respond lib found ctx t (set_topic t s)).1)
            (sym why)
            (subst
              (λ id.
                Unserved (serving id registry.handlers) id s
                  (respond lib (reason registry t) ctx t (set_topic t s)).1)
              (resolve_topic-id lib (key_or_default key) s.ic) (reason-Unserved t (set_topic t s))))
