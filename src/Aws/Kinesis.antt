-- ===== src/Aws/Kinesis.antt =====
-- awskinesis/kinesis.go: the handler of a Kinesis event. encoding/json, base64 and the text of the
-- arrival time are parameters.
use benzene_go.Prelude.{
  ℕ, String, inl, inr, not, Option, none, some, List, [], ◌⊎◌, ◌||◌, ◌∷◌, if◌then◌else◌, ◌==◌,
  string_eq, nat_eq,
}
use benzene_go.Prelude.Splits.{split_n}
use benzene_go.Maps.{Map, insert}
use benzene_go.Flow.{Go, pure, ◌>>=◌}
use benzene_go.Wire.{Request}
use benzene_go.Envelope.Settling.{DispatchOutcome, Delivery, is_at_most_once}
use benzene_go.Aws.Streams.{settle_stream}
use Prim.Native.String

-- `kinesisRecordData`; the arrival time is its decimal text, `none` for 0.
pub record KinesisData : Type 0 where
  pub partition_key : String
  pub sequence_number : String
  pub encoded : String
  pub arrival : Option String

pub record KinesisRecord : Type 0 where
  pub event_id : String
  pub event_name : String
  pub event_source_arn : String
  pub aws_region : String
  pub kinesis : Option KinesisData

-- What stands behind "stream/" in the resource of an ARN.
abbrev pub resource_stream : List String → String
resource_stream (kind ∷ name ∷ _) = if not (kind == "stream") || name == "" then "" else name
resource_stream _ = ""

abbrev pub arn_stream : List String → String
arn_stream (a ∷ b ∷ c ∷ d ∷ e ∷ resource ∷ _) = resource_stream (split_n "/" 2 resource)
arn_stream _ = ""

-- `streamName`
unfoldable pub stream_name : String → String
unfolding split_n
stream_name arn = if arn == "" then "" else arn_stream (split_n ":" 6 arn)

abbrev pub add_header : String → String → Map String String → Map String String
add_header key value headers = if value == "" then headers else insert key value headers

abbrev pub data_headers : Option KinesisData → Map String String → Map String String
data_headers none headers = headers
data_headers (some info) headers =
    add_header "kinesis-approximate-arrival-timestamp"
      (elim info.arrival [ none ↦ "" | some t ↦ t ])
      (add_header "kinesis-sequence-number" info.sequence_number
        (add_header "kinesis-partition-key" info.partition_key headers))

-- `recordHeaders`
unfoldable pub record_headers : KinesisRecord → String → Map String String
record_headers r stream = add_header "kinesis-aws-region" r.aws_region (
    add_header "kinesis-event-source-arn" r.event_source_arn (
      data_headers r.kinesis (
        add_header "kinesis-stream" stream (
          add_header "kinesis-event-name" r.event_name
            (add_header "kinesis-event-id" r.event_id [])))))

-- The body of a record, `none` where its data does not decode.
abbrev pub record_body : (String → Option String) → Option KinesisData → Option String
record_body decode none = some ""
record_body decode (some info) = if info.encoded == "" then some "" else decode info.encoded

-- `resolveRequest`; `none` is its error.
unfoldable pub resolve_record : (String → Option String) → KinesisRecord → Option Request
unfolding stream_name record_headers
resolve_record decode r =
    let stream = stream_name r.event_source_arn in
    elim (record_body decode r.kinesis) [
      | none ↦ none
      | some body ↦ some (record {
        topic = if stream == "" then r.event_name else stream;
        headers = record_headers r stream;
        body = body;
      })
    ]

-- `failAt`: the identifier that it reports.
unfoldable pub fail_at : KinesisRecord → String
fail_at r = elim r.kinesis [
  | none ↦ r.event_id
  | some info ↦ if info.sequence_number == "" then r.event_id else info.sequence_number
]

abbrev pub failures_at : Option KinesisRecord → List String
unfolding fail_at
failures_at none = []
failures_at (some r) = fail_at r ∷ []

-- `Handler`: the identifiers of its batch response, or a Go error by its text.
unfoldable pub handle_stream :
    {S : Type 0}
    → (String → List KinesisRecord ⊎ String)
    → (String → Option String)
    → Delivery
    → (ℕ → Request → Go S DispatchOutcome)
    → ℕ
    → String
    → Go S (List String ⊎ String)
unfolding resolve_record settle_stream
handle_stream unmarshal decode delivery dispatch scope event = elim (unmarshal event) [
  | inr err ↦ pure (inr (String.◌++◌ "awskinesis: malformed Kinesis stream event: " err))
  | inl records ↦ do
    report ← settle_stream (is_at_most_once delivery) (resolve_record decode) dispatch scope records
    pure (inl (failures_at report))
]
