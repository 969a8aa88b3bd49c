-- ===== src/Tests/Queues.antt =====
-- Two messages of a queue, of which the first fails, and two records of a stream.
use benzene_go.Prelude.{
  ℕ, String, refl, inl, false, Option, none, some, List, [], ltb, ◌+◌, ◌≡◌, ◌⊎◌, ◌∷◌, string_eq,
  nat_eq,
}
use benzene_go.Flow.{Go, Flow, ret}
use benzene_go.Wire.{Request, Response}
use benzene_go.Envelope.Settling.{DispatchOutcome, at_least_once, is_at_most_once}
use benzene_go.Aws.Sqs.{
  SqsRecord, Consumer, poll, settle_messages, dispatch_and_report, report_failure, delete_messages,
  report_undeleted,
}
use benzene_go.Aws.Sqs.Settled.{Handled, Deleted, acknowledged_entries, poll-Deleted}
use benzene_go.Aws.Streams.Ordered.{Reported}
use benzene_go.Aws.Kinesis.{KinesisRecord, handle_stream, failures_at, resolve_record}
use benzene_go.Aws.Redelivery.{handle_stream-Reported}

abbrev message : String → SqsRecord
message id = record {
  message_id = id;
  receipt_handle = "r";
  body = "{}";
  message_attributes = ("topic", "orders:create") ∷ [];
}

abbrev received : List SqsRecord
received = message "m1" ∷ message "m2" ∷ []

abbrev reply : Response
reply = record { status_code = "timeout"; headers = []; body = ""; is_successful = some false }

-- The first call fails, the later ones succeed.
abbrev outcome : ℕ → DispatchOutcome
outcome calls = record { response = reply; successful = ltb 0 calls; acknowledge = ltb 0 calls }

abbrev settle_message : ℕ → SqsRecord → Go ℕ DispatchOutcome
settle_message scope r calls = (ret (outcome calls), calls + 1)

abbrev unmarshal : String → List SqsRecord ⊎ String
unmarshal text = inl received

abbrev consumer : Consumer ℕ
consumer = record {
  receive = λ s. (ret (inl received), s);
  delete_batch = λ entries s. (ret (inl ("m2" ∷ [])), s + 100);
  on_failure = some (λ id response s. s + 1000);
}

poll-Deleted_example :
    (outs : List (SqsRecord × DispatchOutcome)) × (handled : ℕ) × (result : Flow (Option String))
    × (final : ℕ) × Handled consumer settle_message 1 received 0 outs handled
    × Deleted consumer (acknowledged_entries outs) handled result final
    × (poll consumer settle_message 1 0 ≡ (result, final))
poll-Deleted_example =
    poll-Deleted consumer settle_message 1 received 0 0 refl (λ scope r s. (outcome s, s + 1, refl))

-- The first message is reported (1000), and the second is not deleted (100), so reported too.
poll-reported : poll consumer settle_message 1 0 ≡ (ret none, 2102)
unfolding poll settle_messages dispatch_and_report report_failure delete_messages report_undeleted
poll-reported = refl

abbrev change : String → KinesisRecord
change id = record {
  event_id = id;
  event_name = "aws:kinesis:record";
  event_source_arn = "arn:aws:kinesis:eu-west-1:1:stream/orders";
  aws_region = "eu-west-1";
  kinesis = none;
}

abbrev changes : List KinesisRecord
changes = change "e1" ∷ change "e2" ∷ []

abbrev decode : String → Option String
decode text = some text

abbrev dispatch_request : ℕ → Request → Go ℕ DispatchOutcome
dispatch_request scope request calls = (ret (outcome calls), calls + 1)

abbrev unmarshal_changes : String → List KinesisRecord ⊎ String
unmarshal_changes text = inl changes

handle_stream-Reported_example :
    (report : Option KinesisRecord) × (s : ℕ) × (handle_stream unmarshal_changes decode
        at_least_once dispatch_request 1 "{}" 1
      ≡ (ret (inl (failures_at report)), s))
    × Reported
        (is_at_most_once at_least_once)
        (resolve_record decode)
        dispatch_request
        1
        changes
        1
        report
        s
handle_stream-Reported_example =
    handle_stream-Reported at_least_once dispatch_request (λ scope r s. (outcome s, s + 1, refl)) 1
      "{}" 1 unmarshal_changes decode changes refl
