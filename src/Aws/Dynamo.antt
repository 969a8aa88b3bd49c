-- ===== src/Aws/Dynamo.antt =====
-- awsdynamodb/dynamodb.go: the handler of a DynamoDB stream event. encoding/json and the conversion
-- of an image to plain JSON are parameters.
use benzene_go.Prelude.{
  ℕ, String, inl, inr, Bool, Option, none, some, List, [], ◌⊎◌, ◌∷◌, if◌then◌else◌, ◌==◌, string_eq,
  nat_eq,
}
use benzene_go.Prelude.Splits.{split, split_n}
use benzene_go.Maps.{Map}
use benzene_go.Flow.{Go, pure, ◌>>=◌}
use benzene_go.Wire.{Request}
use benzene_go.Envelope.Settling.{DispatchOutcome, Delivery, is_at_most_once}
use benzene_go.Aws.Streams.{settle_stream}
use benzene_go.Aws.Kinesis.{add_header}
use Prim.Native.String

-- `dynamoDBStreamData`; the images are JSON texts.
pub record DynamoData : Type 0 where
  pub keys : String
  pub new_image : String
  pub old_image : String
  pub sequence_number : String
  pub stream_view_type : String

pub record DynamoRecord : Type 0 where
  pub event_id : String
  pub event_name : String
  pub event_source_arn : String
  pub aws_region : String
  pub dynamodb : Option DynamoData

abbrev pub resource_table : List String → String
resource_table (kind ∷ name ∷ _) = if kind == "table" then name else ""
resource_table _ = ""

abbrev pub arn_table : List String → String
arn_table (a ∷ b ∷ c ∷ d ∷ e ∷ resource ∷ _) = resource_table (split "/" resource)
arn_table _ = ""

-- `tableName`
unfoldable pub table_name : String → String
unfolding split split_n
table_name arn = if arn == "" then "" else arn_table (split_n ":" 6 arn)

abbrev pub stream_headers : Option DynamoData → Map String String → Map String String
stream_headers none headers = headers
stream_headers (some info) headers =
    add_header "dynamodb-stream-view-type" info.stream_view_type
      (add_header "dynamodb-sequence-number" info.sequence_number headers)

-- `recordHeaders`
unfoldable pub change_headers : DynamoRecord → String → Map String String
change_headers r table = add_header "dynamodb-aws-region" r.aws_region (
    add_header "dynamodb-event-source-arn" r.event_source_arn (
      stream_headers r.dynamodb (
        add_header "dynamodb-table" table (
          add_header "dynamodb-event-id" r.event_id
            (add_header "dynamodb-event-name" r.event_name [])))))

abbrev pub first_object : (String → Bool) → List String → Option String
first_object is_object [] = none
first_object is_object (image ∷ images) =
    let rest = first_object is_object images in if is_object image then some image else rest

-- `firstImage`; `is_object` is `isJSONObject`.
unfoldable pub first_image : (String → Bool) → DynamoData → Option String
first_image is_object info =
    first_object is_object (info.new_image ∷ info.old_image ∷ info.keys ∷ [])

-- The body of a record, `none` where its image does not convert.
abbrev pub image_body : (String → Option String) → Option String → Option String
image_body to_json none = some ""
image_body to_json (some image) = to_json image

abbrev pub change_body :
    (String → Bool) → (String → Option String) → Option DynamoData → Option String
unfolding first_image
change_body is_object to_json none = some ""
change_body is_object to_json (some info) = image_body to_json (first_image is_object info)

-- `resolveRequest`; `none` is its error, and `to_json` is `attributeMapToJSON`.
unfoldable pub resolve_change :
    (String → Bool) → (String → Option String) → DynamoRecord → Option Request
unfolding table_name change_headers
resolve_change is_object to_json r =
    let table = table_name r.event_source_arn in
    elim (change_body is_object to_json r.dynamodb) [
      | none ↦ none
      | some body ↦ some (record {
        topic =
            if table == "" then r.event_name else String.◌++◌ table (String.◌++◌ ":" r.event_name);
        headers = change_headers r table;
        body = body;
      })
    ]

-- `failAt`: the identifier that it reports.
unfoldable pub fail_change : DynamoRecord → String
fail_change r = elim r.dynamodb [
  | none ↦ r.event_id
  | some info ↦ if info.sequence_number == "" then r.event_id else info.sequence_number
]

abbrev pub failed_changes : Option DynamoRecord → List String
unfolding fail_change
failed_changes none = []
failed_changes (some r) = fail_change r ∷ []

-- `Handler`: the identifiers of its batch response, or a Go error by its text.
unfoldable pub handle_changes :
    {S : Type 0}
    → (String → List DynamoRecord ⊎ String)
    → (String → Bool)
    → (String → Option String)
    → Delivery
    → (ℕ → Request → Go S DispatchOutcome)
    → ℕ
    → String
    → Go S (List String ⊎ String)
unfolding resolve_change settle_stream
handle_changes unmarshal is_object to_json delivery dispatch scope event = elim (unmarshal event) [
  | inr err ↦ pure (inr (String.◌++◌ "awsdynamodb: malformed DynamoDB stream event: " err))
  | inl records ↦ do
    report ←
        settle_stream (is_at_most_once delivery) (resolve_change is_object to_json) dispatch scope
          records
    pure (inl (failed_changes report))
]
