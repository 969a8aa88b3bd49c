-- ===== src/Aws/Redelivery.antt =====
-- Where Lambda starts again: the sequence number that the two stream handlers report.
use benzene_go.Prelude.{ℕ, String, refl, inl, Bool, Option, List, ◌≡◌, ◌⊎◌}
use benzene_go.Flow.{Go, ret}
use benzene_go.Wire.{Request}
use benzene_go.Envelope.Settling.{DispatchOutcome, Delivery, is_at_most_once}
use benzene_go.Aws.Streams.Ordered.{Reported, settle_stream-Reported}
use benzene_go.Aws.Kinesis.{KinesisRecord, resolve_record, failures_at, handle_stream}
use benzene_go.Aws.Dynamo.{DynamoRecord, resolve_change, failed_changes, handle_changes}

-- Every dispatch returns: no middleware lets a panic through.
abbrev pub IsAnswering : {S : Type 0} → (ℕ → Request → Go S DispatchOutcome) → Type 0
IsAnswering {S} dispatch =
    (scope : ℕ) (request : Request) (s : S)
    → (out : DispatchOutcome) × (s' : S) × (dispatch scope request s ≡ (ret out, s'))

module _ {S : Type 0} (delivery : Delivery) (dispatch : ℕ → Request → Go S DispatchOutcome)
    (answers : IsAnswering dispatch) (scope : ℕ) (event : String) (s : S) where
  -- Where the event decodes and no dispatch panics, the Kinesis handler returns. It reports no
  -- failure, and every record in order was acknowledged, or could not be read under at-most-once
  -- delivery; or it reports one record, every record before it was so passed by, the record itself
  -- was not acknowledged, or could not be read, and no record after it was dispatched.
  pub handle_stream-Reported :
      (unmarshal : String → List KinesisRecord ⊎ String) (decode : String → Option String)
      (records : List KinesisRecord)
      → unmarshal event ≡ inl records
      → (report : Option KinesisRecord) × (s' : S) × (handle_stream unmarshal decode delivery
            dispatch scope event s
          ≡ (ret (inl (failures_at report)), s'))
        × Reported
            (is_at_most_once delivery)
            (resolve_record decode)
            dispatch
            scope
            records
            s
            report
            s'
  unfolding handle_stream
  handle_stream-Reported unmarshal decode records decoded =
      let (report, s', ran, reported) =
        settle_stream-Reported (is_at_most_once delivery) (resolve_record decode) dispatch answers
          scope records s in
      (report, s', rw (decoded, handle_stream) (rw ran refl), reported)

  pub handle_changes-Reported :
      (unmarshal : String → List DynamoRecord ⊎ String) (is_object : String → Bool)
      (to_json : String → Option String) (records : List DynamoRecord)
      → unmarshal event ≡ inl records
      → (report : Option DynamoRecord) × (s' : S) × (handle_changes unmarshal is_object to_json
            delivery dispatch scope event s
          ≡ (ret (inl (failed_changes report)), s'))
        × Reported
            (is_at_most_once delivery)
            (resolve_change is_object to_json)
            dispatch
            scope
            records
            s
            report
            s'
  unfolding handle_changes
  handle_changes-Reported unmarshal is_object to_json records decoded =
      let (report, s', ran, reported) =
        settle_stream-Reported (is_at_most_once delivery) (resolve_change is_object to_json)
          dispatch answers scope records s in
      (report, s', rw (decoded, handle_changes) (rw ran refl), reported)
