-- ===== src/Envelope.antt =====
-- envelope/dispatch.go: one message through a pipeline and back to the wire. Go's encoding/json is the interface
-- `Json`; a dispatch is given the id of its new scope.
pub mod Flags
pub mod Settling
use benzene_go.Prelude.{
  ℕ, String, inl, inr, Bool, true, false, not, Option, none, some, List, [], ◌⊎◌, ◌&&◌, ◌||◌, ◌∷◌,
  ◌++◌, if◌then◌else◌, ◌==◌, string_eq, nat_eq,
}
use benzene_go.Maps.{Map, insert}
use benzene_go.Flow.{Go, Err, Flow, ret, panic, gets, modify, pure, lift, error_text, ◌>>=◌, ◌>>◌}
use benzene_go.Topic.{Topic, new_topic}
use benzene_go.Status.{
  Status, status_unexpected_error, status_service_unavailable, is_success, is_failure,
}
use benzene_go.Wire.{Request, Response, ErrorPayload, new_problem, problems}
use benzene_go.Result.{
  Result, ResultInfo, erase, literal, failed, fail, fail_with, unexpected_error,
  errors_from_messages, problems_of, is_unmatched_topic,
}
use benzene_go.Pipeline.{Ctx, Invocation, State, Middleware, new_invocation, run}
use Prim.Native.String

-- `inr` is an error, by its text.
pub record Json (V : Type 0) : Type 0 where
  pub marshal : V → String ⊎ String
  pub marshal_problem : ErrorPayload → String ⊎ String
  pub unmarshal_problem : String → Option ErrorPayload
  pub raw : String → V

abbrev pub marshalled : String ⊎ String → String
marshalled (inl body) = body
marshalled (inr err) = "{}"

abbrev pub add_headers : Map String String → Map String String → Map String String
add_headers [] headers = headers
add_headers ((name, value) ∷ more) headers = add_headers more (insert name value headers)

module _ {V : Type 0} where
  -- `resultSuccessful`
  unfoldable pub result_successful : ResultInfo V → Bool
  result_successful r = elim r.result_is_successful [
    | some b ↦ b
    | none ↦ not (is_failure r.result_status)
  ]

  -- `UnexpectedError` and `ServiceUnavailable` with one message, behind the interface.
  abbrev pub failure_of : Status → String → ResultInfo V
  failure_of status text = erase (λ v. v) (failed status (errors_from_messages (text ∷ [])))

  -- `problemDocument`
  unfoldable pub problem_document : ResultInfo V → ErrorPayload
  problem_document r = elim r.result_problem_document [
    | none ↦ new_problem r.result_status (problems_of r)
    | some authored ↦ elim authored [
      | none ↦ new_problem r.result_status (problems_of r)
      | some document ↦ document
    ]
  ]

  -- `errorResponse`
  unfoldable pub error_response : Json V → ResultInfo V → Response
  unfolding problem_document
  error_response json r = record {
    status_code = r.result_status;
    headers = ("content-type", "application/problem+json") ∷ [];
    body = marshalled (json.marshal_problem (problem_document r));
    is_successful = some false;
  }

  -- The response of a success whose payload was marshalled, or was not.
  abbrev pub payload_response : Json V → Status → String ⊎ String → Response
  payload_response json status (inl body) = record {
    status_code = status;
    headers = ("content-type", "application/json") ∷ [];
    body = body;
    is_successful = some true;
  }
  payload_response json status (inr err) = error_response json (
      failure_of status_unexpected_error (String.◌++◌ "failed to serialize response payload: " err))

  -- `toResponse`
  unfoldable pub to_response : Json V → ResultInfo V → Response
  unfolding result_successful error_response
  to_response json r =
      if result_successful r
      then elim r.result_payload [
        | none ↦ record {
          status_code = r.result_status;
          headers = [];
          body = "";
          is_successful = some true;
        }
        | some payload ↦ payload_response json r.result_status (json.marshal payload)
      ]
      else error_response json r

  -- `withResponseHeaders`
  unfoldable pub with_response_headers : Response → Invocation V → Response
  with_response_headers resp ic = record resp {
    headers = add_headers ic.response_headers resp.headers;
  }

  -- What `dispatch` reports once the pipeline has returned: response, success, unmatched topic.
  unfoldable pub reported : Json V → Option Err → Invocation V → Response × Bool × Bool
  unfolding with_response_headers error_response to_response result_successful is_unmatched_topic
  reported json (some err) ic = (
    with_response_headers
        (error_response json (failure_of status_service_unavailable (error_text err))) ic,
    false,
    false,
  )
  reported json none ic = elim ic.result [
    | none ↦ (
      with_response_headers
          (error_response json
            (failure_of status_unexpected_error "pipeline completed without producing a result"))
          ic,
      false,
      false,
    )
    | some r ↦
        (with_response_headers (to_response json r) ic, result_successful r, is_unmatched_topic r)
  ]

module _ {C V W : Type 0} where
  -- `dispatch`
  unfoldable pub dispatch_message :
      Json V
      → Option (List (Middleware C V W))
      → Ctx C
      → ℕ
      → Topic
      → Map String String
      → String
      → Go (State V W) (Response × Bool × Bool)
  unfolding reported run new_invocation
  dispatch_message json pipeline ctx scope topic headers body = do
    modify (λ s. record s {
      ic = new_invocation topic (some headers) (some (json.raw body)) (some scope);
    })
    err ← run pipeline ctx
    ic ← gets (λ s. s.ic)
    pure (reported json err ic)

-- The flag of a response; an envelope that omits it is unsuccessful.
abbrev pub claims_success : Response → Bool
claims_success resp = elim resp.is_successful [ none ↦ false | some b ↦ b ]

module _ {V : Type 0} where
  -- `ToResult`; `malformed` is the text that it formats of a contradictory envelope.
  unfoldable pub to_result : Json V → (Status → Bool → String) → Response → Flow (Result String)
  unfolding fail fail_with unexpected_error problems
  to_result json malformed resp =
      let status = resp.status_code in
      let successful = claims_success resp in
      if (successful && is_failure status) || (not successful && is_success status)
      then unexpected_error (malformed status successful ∷ [])
      else if not successful
      then elim (json.unmarshal_problem resp.body) [
        | none ↦ fail status []
        | some problem ↦ fail_with status (problems problem)
      ]
      else if resp.body == ""
      then ret (literal status none [])
      else ret (literal status (some resp.body) [])
