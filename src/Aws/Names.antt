-- ===== src/Aws/Names.antt =====
-- The stream and the table that an ARN names.
use benzene_go.Prelude.{
  ℕ, suc, String, refl, ap, inl, inr, true, false, [], string_eq, Bool-cases, ◌≡◌, ◌∙◌, ◌∷◌, ◌==◌,
}
use benzene_go.Prelude.Splits.{split, split_n, cut, lacks, split_n-append, split-append}
use benzene_go.Aws.Kinesis.{stream_name, arn_stream, resource_stream}
use benzene_go.Aws.Dynamo.{table_name, arn_table, resource_table}
use Prim.Native.Char.{Char}
use Prim.Native.String.{◌++◌ as ◌&◌}
use Prim.Native.String.append

one : (sep : Char) (t : String) → (String.◌∷◌ sep "") & t ≡ String.◌∷◌ sep t
one sep t = (λ i. append.cons sep "" t i) ∙ ap (String.◌∷◌ sep) (λ i. append.nil t i)

split_n-field :
    (sep : Char) (n : ℕ) (s t : String)
    → lacks sep s ≡ true
    → split_n sep (suc (suc n)) (s & ((String.◌∷◌ sep "") & t)) ≡ s ∷ split_n sep (suc n) t
split_n-field sep n s t h =
    ap (λ u. split_n sep (suc (suc n)) (s & u)) (one sep t) ∙ split_n-append sep n s t h

-- An ARN from its parts.
abbrev arn_of : String → String → String → String → String
arn_of service region account resource =
    "arn"
    & (":" & ("aws" & (":" & (service & (":" & (region & (":" & (account & (":" & resource)))))))))

split_n-arn_of :
    (service region account resource : String)
    → lacks ":" service ≡ true
    → lacks ":" region ≡ true
    → lacks ":" account ≡ true
    → split_n ":" 6 (arn_of service region account resource)
      ≡ "arn" ∷ "aws" ∷ service ∷ region ∷ account ∷ resource ∷ []
unfolding split_n lacks
split_n-arn_of service region account resource hs hr ha =
    let from_account = account & (":" & resource) in
    let from_region = region & (":" & from_account) in
    let from_service = service & (":" & from_region) in
    split_n-field ":" 4 "arn" ("aws" & (":" & from_service)) refl
    ∙ ap (λ l. "arn" ∷ l)
        (split_n-field ":" 3 "aws" from_service refl
          ∙ ap (λ l. "aws" ∷ l)
              (split_n-field ":" 2 service from_region hs
                ∙ ap (λ l. service ∷ l)
                    (split_n-field ":" 1 region from_account hr
                      ∙ ap (λ l. region ∷ l) (split_n-field ":" 0 account resource ha))))

stream_name-eq : (arn : String) → stream_name arn ≡ arn_stream (split_n ":" 6 arn)
unfolding stream_name split_n cut
stream_name-eq arn = elim (Bool-cases (arn == "")) [
  | inl empty ↦ rw ((string_eq.equal_iff arn "").0 empty) refl
  | inr other ↦ rw other refl
]

table_name-eq : (arn : String) → table_name arn ≡ arn_table (split_n ":" 6 arn)
unfolding table_name split_n cut
table_name-eq arn = elim (Bool-cases (arn == "")) [
  | inl empty ↦ rw ((string_eq.equal_iff arn "").0 empty) refl
  | inr other ↦ rw other refl
]

-- The name of a Kinesis stream is read back from the stream's ARN, whatever the name holds, where
-- the region and the account hold no colon and the name is not empty.
stream_name-arn_of :
    (region account name : String)
    → lacks ":" region ≡ true
    → lacks ":" account ≡ true
    → (name == "") ≡ false
    → stream_name (arn_of "kinesis" region account ("stream" & ("/" & name))) ≡ name
unfolding lacks split_n
stream_name-arn_of region account name hr ha some_name =
    let resource = "stream" & ("/" & name) in
    stream_name-eq (arn_of "kinesis" region account resource)
    ∙ ap arn_stream (split_n-arn_of "kinesis" region account resource refl hr ha)
    ∙ ap resource_stream (split_n-field "/" 0 "stream" name refl)
    ∙ rw some_name refl

-- The name of a DynamoDB table is read back from the ARN of a stream of it, whatever the stream's
-- label holds, where the region and the account hold no colon and the name no slash.
table_name-arn_of :
    (region account name label : String)
    → lacks ":" region ≡ true
    → lacks ":" account ≡ true
    → lacks "/" name ≡ true
    → table_name
        (arn_of "dynamodb" region account ("table" & ("/" & (name & ("/" & ("stream/" & label))))))
      ≡ name
unfolding lacks
table_name-arn_of region account name label hr ha hn =
    let rest = "/" & ("stream/" & label) in
    let resource = "table" & ("/" & (name & rest)) in
    table_name-eq (arn_of "dynamodb" region account resource)
    ∙ ap arn_table (split_n-arn_of "dynamodb" region account resource refl hr ha)
    ∙ ap resource_table (
        ap (λ u. split "/" ("table" & u)) (one "/" (name & rest))
        ∙ split-append "/" "table" (name & rest) refl
        ∙ ap (λ l. "table" ∷ l)
            (ap (λ u. split "/" (name & u)) (one "/" ("stream/" & label))
              ∙ split-append "/" name ("stream/" & label) hn))
