-- ===== src/InProcess.antt =====
-- inprocess/inprocess.go and client/failure.go: a caller and a pipeline in one process.
pub mod Results
use benzene_go.Prelude.{
  ℕ, String, inl, inr, Bool, false, not, Option, none, some, List, [], is_some, ◌+◌, ◌⊎◌, ◌||◌, ◌∷◌,
  ◌++◌, if◌then◌else◌, string_eq, nat_eq,
}
use benzene_go.Maps.{Map, lookup, insert}
use benzene_go.Flow.{
  Go, Err, Flow, ret, panic, gets, modify, pure, lift, error_text, is_deadline_exceeded, ◌>>=◌,
  ◌>>◌,
}
use benzene_go.Topic.{Topic}
use benzene_go.Status.{status_ok}
use benzene_go.Result.{
  Result, ResultInfo, literal, ok, is_successful, unexpected_error, timeout, service_unavailable,
  problems_of,
}
use benzene_go.Pipeline.{Ctx, Invocation, State, Middleware, new_invocation, run}
use benzene_go.Envelope.{Json}
use Prim.Native.String

-- What the calls ask of a context and of an error: `ctx.Err()`, and a `Timeout` method.
pub record Clock (C : Type 0) : Type 0 where
  pub ctx_err : Ctx C → Option Err
  pub is_timeout : Err → Bool

abbrev exceeded : Option Err → Bool
unfolding is_deadline_exceeded
exceeded none = false
exceeded (some err) = is_deadline_exceeded err

module _ {C : Type 0} (clock : Clock C) where
  -- `DeadlineElapsed`
  unfoldable pub deadline_elapsed : Ctx C → Err → Bool
  unfolding exceeded is_deadline_exceeded
  deadline_elapsed ctx err =
      exceeded (clock.ctx_err ctx) || is_deadline_exceeded err || clock.is_timeout err

  -- `CallFailure`
  unfoldable pub call_failure : Ctx C → Err → String → Flow (Result String)
  unfolding deadline_elapsed timeout service_unavailable
  call_failure ctx err detail =
      if deadline_elapsed ctx err then timeout (detail ∷ []) else service_unavailable (detail ∷ [])

-- The result of a payload that was marshalled, or was not.
unfoldable pub raw_payload : {V : Type 0} → ResultInfo V → String ⊎ String → Flow (Result String)
unfolding unexpected_error problems_of
raw_payload result (inl raw) = ret (literal result.result_status (some raw) (problems_of result))
raw_payload result (inr err) =
    unexpected_error (String.◌++◌ "inprocess: failed to serialize handler payload: " err ∷ [])

-- `toRawResult`
unfoldable pub to_raw_result : {V : Type 0} → Json V → ResultInfo V → Flow (Result String)
unfolding raw_payload problems_of
to_raw_result json result = elim result.result_payload [
  | none ↦ ret (literal result.result_status none (problems_of result))
  | some payload ↦ raw_payload result (json.marshal payload)
]

-- What `dispatch` makes of the invocation that the pipeline leaves.
unfoldable pub raw_reply :
    {C V : Type 0} → Clock C → Json V → Ctx C → Option Err → Invocation V → Flow (Result String)
unfolding call_failure to_raw_result unexpected_error
raw_reply clock json ctx (some err) ic = call_failure clock ctx err (error_text err)
raw_reply clock json ctx none ic = elim ic.result [
  | none ↦ unexpected_error ("pipeline completed without producing a result" ∷ [])
  | some result ↦ to_raw_result json result
]

-- An `ApplicationBuilder`, as far as a call uses it: a pipeline, nil or not.
abbrev pub Builder : Type 0 → Type 0 → Type 0 → Type 0
Builder C V W = Option (List (Middleware C V W))

pub data AddError : Type 0 where
  already_added no_pipeline_set : String → AddError

module _ {C V W : Type 0} where
  -- `Add`
  unfoldable pub add_pipeline :
      String
      → Builder C V W
      → Map String (Builder C V W)
      → Option AddError × Map String (Builder C V W)
  add_pipeline name builder set =
      if is_some (lookup name set) then (some (already_added name), set) else elim builder [
        | none ↦ (some (no_pipeline_set name), set)
        | some mws ↦ (none, insert name (some mws) set)
      ]

  -- `NewSender`; `none` is the error that the name is not registered.
  unfoldable pub new_sender : Map String (Builder C V W) → String → Option (Builder C V W)
  new_sender set name = lookup name set

  -- `NewFanOutSender`
  unfoldable pub find_all : Map String (Builder C V W) → List String → Option (List (Builder C V W))
  find_all set [] = some []
  find_all set (name ∷ names) =
      let rest = find_all set names in
      elim (lookup name set) [
        | none ↦ none
        | some builder ↦ elim rest [ none ↦ none | some builders ↦ some (builder ∷ builders) ]
      ]

  unfoldable pub new_fan_out :
      Map String (Builder C V W) → List String → Option (List (Builder C V W))
  unfolding find_all
  new_fan_out set [] = none
  new_fan_out set (name ∷ names) = find_all set (name ∷ names)

  module _ (clock : Clock C) (json : Json V) where
    -- `dispatch`, and `Sender.Send`
    unfoldable pub send :
        Builder C V W → Ctx C → ℕ → Topic → Map String String → V → Go (State V W) (Result String)
    unfolding raw_reply call_failure new_invocation run
    send builder ctx scope topic headers message = elim (clock.ctx_err ctx) [
      | some err ↦
          lift (
            call_failure clock ctx err (String.◌++◌ "inprocess: not dispatched: " (error_text err)))
      | none ↦ (do
        modify
            (λ s. record s { ic = new_invocation topic (some headers) (some message) (some scope) })
        err ← run builder ctx
        ic ← gets (λ s. s.ic)
        lift (raw_reply clock json ctx err ic))
    ]

    -- `FanOutSender.Send`: the consumers run here in the order of the list; an unsuccessful result of
    -- one is logged only.
    unfoldable pub send_all :
        List (Builder C V W)
        → Ctx C
        → ℕ
        → Topic
        → Map String String
        → V
        → Go (State V W) (Result String)
    unfolding send ok
    send_all [] ctx scope topic headers message = pure (ok "null")
    send_all (builder ∷ builders) ctx scope topic headers message =
        let rest = send_all builders ctx (scope + 1) topic headers message in
        do send builder ctx scope topic headers message; rest
