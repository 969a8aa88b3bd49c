-- ===== src/Aws/Sqs.antt =====
-- awssqs/sqs.go and awssqs/consumer.go: the Lambda handler of a batch, and one poll of a queue.
-- encoding/json and the SQS client are parameters.

pub mod Settled
use benzene_go.Prelude.{
  ℕ, suc, String, inl, inr, Bool, not, Option, none, some, List, [], ◌⊎◌, ◌∷◌, ◌++◌, if◌then◌else◌,
  ◌==◌, string_eq, nat_eq,
}
use benzene_go.Maps.{Map}
use benzene_go.Flow.{Go, pure, modify, ◌>>=◌, ◌>>◌}
use benzene_go.Status.{status_service_unavailable}
use benzene_go.Wire.{Request, Response}
use benzene_go.Metadata.{resolve_metadata_topic}
use benzene_go.Envelope.{add_headers}
use benzene_go.Envelope.Settling.{DispatchOutcome}
use Prim.Native.String

-- `sqsRecord`, and what the consumer reads of a `types.Message`; an attribute is its text.
pub record SqsRecord : Type 0 where
  pub message_id : String
  pub receipt_handle : String
  pub body : String
  pub message_attributes : Map String String

-- `resolveRequest` and `resolveMessage`; `decode` reads a request from JSON.
unfoldable pub resolve_request :
    (String → String → Bool) → (String → Option Request) → String → SqsRecord → Request
unfolding resolve_metadata_topic
resolve_request equal_fold decode topic_key message =
    let resolved = resolve_metadata_topic equal_fold message.message_attributes topic_key in
    let unresolved : Request = record { topic = ""; headers = resolved.1; body = message.body } in
    if not (resolved.0 == "")
    then record { topic = resolved.0; headers = resolved.1; body = message.body }
    else elim (decode message.body) [
      | none ↦ unresolved
      | some envelope ↦ if envelope.topic == "" then unresolved else record {
        topic = envelope.topic;
        headers = add_headers envelope.headers resolved.1;
        body = envelope.body;
      }
    ]

-- The `Consumer`'s fields that a poll uses; `on_failure` is `none` where there is no hook.
pub record Consumer (S : Type 0) : Type 0 where
  pub receive : Go S (List SqsRecord ⊎ String)
  pub delete_batch : List (String × String) → Go S (List String ⊎ String)
  pub on_failure : Option (String → Response → S → S)

abbrev pub undeleted : Response
undeleted = record {
  status_code = status_service_unavailable;
  headers = [];
  body = "";
  is_successful = none;
}

module _ {S : Type 0} where
  -- The loop of `Handler`: the ids of the messages to redeliver.
  unfoldable pub settle_records :
      (ℕ → SqsRecord → Go S DispatchOutcome) → ℕ → List SqsRecord → Go S (List String)
  settle_records dispatch scope [] = pure []
  settle_records dispatch scope (message ∷ messages) = do
    outcome ← dispatch scope message
    failures ← settle_records dispatch (suc scope) messages
    pure (if outcome.acknowledge then failures else message.message_id ∷ failures)

  -- `Handler`; `inr` is a Go error by its text.
  unfoldable pub handle_batch :
      (String → List SqsRecord ⊎ String)
      → (ℕ → SqsRecord → Go S DispatchOutcome)
      → ℕ
      → String
      → Go S (List String ⊎ String)
  unfolding settle_records
  handle_batch unmarshal dispatch scope event = elim (unmarshal event) [
    | inr err ↦ pure (inr (String.◌++◌ "awssqs: malformed SQS event: " err))
    | inl records ↦ do failures ← settle_records dispatch scope records; pure (inl failures)
  ]

  unfoldable pub report_failure :
      Option (String → Response → S → S) → String → Response → Go S (Unit {0})
  report_failure none id response = pure tt
  report_failure (some hook) id response = modify (hook id response)

  unfoldable pub dispatch_and_report :
      Consumer S → (ℕ → SqsRecord → Go S DispatchOutcome) → ℕ → SqsRecord → Go S DispatchOutcome
  unfolding report_failure
  dispatch_and_report c dispatch scope message = do
    outcome ← dispatch scope message
    if outcome.successful
        then pure tt
        else report_failure c.on_failure message.message_id outcome.response
    pure outcome

  -- The first loop of `poll`: what is to be deleted.
  unfoldable pub settle_messages :
      Consumer S
      → (ℕ → SqsRecord → Go S DispatchOutcome)
      → ℕ
      → List SqsRecord
      → Go S (List (String × String))
  unfolding dispatch_and_report
  settle_messages c dispatch scope [] = pure []
  settle_messages c dispatch scope (message ∷ messages) = do
    outcome ← dispatch_and_report c dispatch scope message
    deletes ← settle_messages c dispatch (suc scope) messages
    pure (
        if outcome.acknowledge
        then (message.message_id, message.receipt_handle) ∷ deletes
        else deletes)

  unfoldable pub report_undeleted : Consumer S → List String → Go S (Unit {0})
  unfolding report_failure
  report_undeleted c [] = pure tt
  report_undeleted c (id ∷ ids) = do
    report_failure c.on_failure id undeleted
    report_undeleted c ids

  unfoldable pub delete_messages : Consumer S → List (String × String) → Go S (Option String)
  unfolding report_undeleted
  delete_messages c [] = pure none
  delete_messages c (entry ∷ entries) = do
    answer ← c.delete_batch (entry ∷ entries)
    elim answer [ inr err ↦ pure (some err) | inl failed ↦ do report_undeleted c failed; pure none ]

  -- `poll`; the result is the Go error, by its text.
  unfoldable pub poll :
      Consumer S → (ℕ → SqsRecord → Go S DispatchOutcome) → ℕ → Go S (Option String)
  unfolding settle_messages delete_messages
  poll c dispatch scope = do
    answer ← c.receive
    elim answer [
      | inr err ↦ pure (some err)
      | inl messages ↦ do
        deletes ← settle_messages c dispatch scope messages
        delete_messages c deletes
    ]
