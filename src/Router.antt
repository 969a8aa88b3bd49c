-- ===== src/Router.antt =====
-- router.go: the terminal middleware. Go's `strings.EqualFold` and the `%q` verb are the fields of
-- `Strings`; the logging of `RouterMiddleware` at start-up is left out.
pub mod Laws
use benzene_go.Prelude.{
  ℕ, String, Bool, true, not, Option, none, some, [], ◌&&◌, ◌∷◌, ◌++◌, if◌then◌else◌, ◌==◌,
  string_eq, nat_eq,
}
use benzene_go.Maps.{Map}
use benzene_go.Flow.{
  Go, Err, Flow, ret, panic, lift, pure, gets, modify, recovering, error_text, ◌>>=◌, ◌>>◌,
}
use benzene_go.Topic.{Topic, with_version}
use benzene_go.Status.{status_ok}
use benzene_go.Result.{
  Result, ResultInfo, literal, erase, validation_error, not_found, bad_request, service_unavailable,
}
use benzene_go.Registry.{
  Registry, Selection, selected, unknown_topic, unknown_version, no_default, select,
}
use benzene_go.Pipeline.{
  Ctx, Invocation, State, Next, Middleware, set_result, context_with_invocation, context_with_scope,
}
use Prim.Native.String

pub record Strings : Type 0 where
  pub equal_fold : String → String → Bool
  pub quote : String → String

abbrev pub ping_topic : String
ping_topic = "benzene:ping"

abbrev pub default_version_key : String
default_version_key = "benzene-version"

-- `wire.ResolveVersion`, ranging over the headers in the order of the list.
unfoldable pub resolve_version : Strings → Map String String → String → String
resolve_version lib [] key = ""
resolve_version lib ((name, value) ∷ headers) key =
    if not (value == "") && lib.equal_fold name key then value else resolve_version lib headers key

-- What an erased handler returns: a result, which may be a nil interface, or an error.
pub data Reply (V : Type 0) : Type 0 where
  answered : Option (ResultInfo V) → Reply V
  refused : Err → Reply V

abbrev pub ErasedHandler : Type 0 → Type 0 → Type 0 → Type 0
ErasedHandler C V W = Ctx C → Option V → Go (State V W) (Reply V)

infixr 66 ◌&◌
abbrev ◌&◌ : String → String → String
s & t = String.◌++◌ s t

module _ (lib : Strings) (t : Topic) where
  abbrev pub unmatched_text : String
  unmatched_text = "no handler found for topic " & lib.quote t.id

  abbrev pub version_text : String
  version_text =
      "no handler found for topic " & lib.quote t.id & " at version " & lib.quote t.version

  abbrev pub no_default_text : String
  no_default_text =
      "no handler found for topic "
      & lib.quote t.id
      & " without a version: its handlers are all versioned and none is the default"

abbrev pub key_or_default : String → String
key_or_default key = if key == "" then default_version_key else key

module _ {V : Type 0} where
  abbrev pub any : Result (Option V) → ResultInfo V
  any r = erase (λ v. v) r

  abbrev as_any : Flow (Result (Option V)) → Flow (Option (ResultInfo V))
  as_any (ret r) = ret (some (any r))
  as_any (panic text) = panic text

  -- `unmatched`
  unfoldable pub unmatched : String → Flow (Result (Option V))
  unfolding not_found
  unmatched text = elim (not_found {A = Option V} (text ∷ [])) [
    | ret r ↦ ret (record r { unmatched = true })
    | panic p ↦ panic p
  ]

  abbrev pub reply_result : Reply V → Flow (Option (ResultInfo V))
  reply_result (refused err) = as_any (bad_request (error_text err ∷ []))
  reply_result (answered result) = ret result

  -- `if ic.Topic.Version == "" { ic.Topic.Version = … }`
  unfoldable pub resolve_topic : Strings → String → Invocation V → Topic
  unfolding resolve_version with_version
  resolve_topic lib key ic =
      if ic.topic.version == ""
      then with_version ic.topic (resolve_version lib ic.headers key)
      else ic.topic

abbrev pub handler_ctx : {C : Type 0} → Ctx C → Option ℕ → Ctx C
unfolding context_with_invocation context_with_scope
handler_ctx ctx none = context_with_invocation ctx
handler_ctx ctx (some scope) = context_with_scope (context_with_invocation ctx) scope

module _ {V W : Type 0} where
  -- ic.Result = …
  unfoldable pub put_result : Flow (Result (Option V)) → Go (State V W) (Unit {0})
  unfolding erase set_result
  put_result made = do r ← lift made; modify (set_result (any r))

  abbrev pub store_result : Option (ResultInfo V) → State V W → State V W
  store_result r s = record s { ic = record s.ic { result = r } }

  abbrev pub set_topic : Topic → State V W → State V W
  set_topic t s = record s { ic = record s.ic { topic = t } }

module _ {C V W : Type 0} where
  abbrev pub call : Option (ErasedHandler C V W) → ErasedHandler C V W
  call none ctx request =
      lift (panic "runtime error: invalid memory address or nil pointer dereference")
  call (some handler) ctx request = handler ctx request

  -- `dispatch`
  unfoldable pub dispatch :
      Ctx C → Option (ErasedHandler C V W) → Option V → Go (State V W) (Option (ResultInfo V))
  unfolding bad_request service_unavailable erase
  dispatch ctx handler request =
      recovering (λ text. lift (as_any (service_unavailable (("handler panicked: " & text) ∷ []))))
        (do reply ← call handler ctx request; lift (reply_result reply))

  -- The `switch` on the selection, without the call of `next` that ends every branch.
  unfoldable pub respond :
      Strings → Selection (ErasedHandler C V W) → Ctx C → Topic → Go (State V W) (Unit {0})
  unfolding put_result unmatched not_found dispatch
  respond lib (selected handler) ctx t = do
    ic ← gets (λ s. s.ic)
    result ← dispatch (handler_ctx ctx ic.scope) handler ic.request
    modify (store_result result)
  respond lib unknown_topic ctx t = put_result (
      if t.id == ping_topic
      then ret (literal status_ok none [])
      else unmatched (unmatched_text lib t))
  respond lib unknown_version ctx t = put_result (not_found (version_text lib t ∷ []))
  respond lib no_default ctx t = put_result (not_found (no_default_text lib t ∷ []))

  unfoldable pub router : Strings → Registry (ErasedHandler C V W) → String → Middleware C V W
  unfolding respond resolve_topic validation_error put_result
  router lib registry version_key ctx next = do
    ic ← gets (λ s. s.ic)
    if ic.topic.id == ""
        then (do put_result (validation_error ("topic is missing" ∷ [])); next ctx)
        else (do
          let t = resolve_topic lib (key_or_default version_key) ic
          modify (set_topic t)
          respond lib (select registry t) ctx t
          next ctx)
