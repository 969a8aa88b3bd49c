-- ===== src/Aws/Sqs/Settled.antt =====
-- Which messages of a batch are redelivered, and which messages of a poll are deleted.
use benzene_go.Prelude.{
  ℕ, suc, String, refl, inl, inr, true, false, Option, none, some, List, [], Bool-cases, ◌≡◌, ◌⊎◌,
  ◌∷◌, if◌then◌else◌, string_eq, nat_eq,
}
use benzene_go.Flow.{Go, Flow, ret, panic}
use benzene_go.Wire.{Response}
use benzene_go.Envelope.Settling.{DispatchOutcome}
use benzene_go.Aws.Batches.{IsReturning, Ran, nothing, first, Ran-total}
use benzene_go.Aws.Sqs.{
  SqsRecord, settle_records, handle_batch, Consumer, undeleted, report_failure, report_undeleted,
  dispatch_and_report, settle_messages, delete_messages, poll,
}

-- The ids of the messages that were not acknowledged, and the entries of those that were.
unfoldable pub unacknowledged : List (SqsRecord × DispatchOutcome) → List String
unacknowledged [] = []
unacknowledged ((message, out) ∷ outs) =
    let rest = unacknowledged outs in if out.acknowledge then rest else message.message_id ∷ rest

unfoldable pub acknowledged_entries : List (SqsRecord × DispatchOutcome) → List (String × String)
acknowledged_entries [] = []
acknowledged_entries ((message, out) ∷ outs) =
    let rest = acknowledged_entries outs in
    if out.acknowledge then (message.message_id, message.receipt_handle) ∷ rest else rest

module _ {S : Type 0} where
  settle_records-Ran :
      (dispatch : ℕ → SqsRecord → Go S DispatchOutcome) (scope : ℕ) (messages : List SqsRecord)
      (s s' : S) (outs : List (SqsRecord × DispatchOutcome))
      → Ran dispatch scope messages s outs s'
      → settle_records dispatch scope messages s ≡ (ret (unacknowledged outs), s')
  unfolding settle_records unacknowledged
  settle_records-Ran dispatch scope [] s s' _ (nothing _ _) = refl
  settle_records-Ran dispatch scope (r ∷ rs) s s'' _ (first _ _ _ _ s' _ out outs ran rest) =
      rw (ran, settle_records)
        (rw (settle_records-Ran dispatch (suc scope) rs s' s'' outs rest) refl)

  -- Where the event decodes and no dispatch panics, the SQS handler returns, every message was
  -- dispatched in order, and the ids that it reports are those of the messages that were not
  -- acknowledged, in order.
  pub handle_batch-Ran :
      (unmarshal : String → List SqsRecord ⊎ String)
      (dispatch : ℕ → SqsRecord → Go S DispatchOutcome) (scope : ℕ) (event : String)
      (messages : List SqsRecord) (s : S)
      → unmarshal event ≡ inl messages
      → IsReturning dispatch
      → (outs : List (SqsRecord × DispatchOutcome)) × (s' : S) × Ran dispatch scope messages s outs
          s'
        × (handle_batch unmarshal dispatch scope event s ≡ (ret (inl (unacknowledged outs)), s'))
  unfolding handle_batch
  handle_batch-Ran unmarshal dispatch scope event messages s decoded returns =
      let (outs, s', ran) = Ran-total dispatch returns scope messages s in
      (
        outs,
        s',
        ran,
        rw (decoded, handle_batch)
            (rw (settle_records-Ran dispatch scope messages s s' outs ran) refl),
      )

  -- The state after `OnFailure`, where there is one.
  abbrev pub told : Option (String → Response → S → S) → String → Response → S → S
  told none id response s = s
  told (some hook) id response s = hook id response s

  -- The messages of a poll in order, each with its outcome: it was dispatched once, and the hook
  -- was told of it if it was unsuccessful, and only then.
  pub data Handled (c : Consumer S) (dispatch : ℕ → SqsRecord → Go S DispatchOutcome)
      : ℕ → List SqsRecord → S → List (SqsRecord × DispatchOutcome) → S → Type 0 where
    none_left : (scope : ℕ) (s : S) → Handled c dispatch scope [] s [] s
    succeeded :
        (scope : ℕ) (r : SqsRecord) (rs : List SqsRecord) (out : DispatchOutcome)
        (outs : List (SqsRecord × DispatchOutcome)) (s s' s'' : S)
        → dispatch scope r s ≡ (ret out, s')
        → out.successful ≡ true
        → Handled c dispatch (suc scope) rs s' outs s''
        → Handled c dispatch scope (r ∷ rs) s ((r, out) ∷ outs) s''
    failed :
        (scope : ℕ) (r : SqsRecord) (rs : List SqsRecord) (out : DispatchOutcome)
        (outs : List (SqsRecord × DispatchOutcome)) (s s' s'' : S)
        → dispatch scope r s ≡ (ret out, s')
        → out.successful ≡ false
        → Handled c dispatch
            (suc scope)
            rs
            (told c.on_failure r.message_id out.response s')
            outs
            s''
        → Handled c dispatch scope (r ∷ rs) s ((r, out) ∷ outs) s''

  -- The hook is told of every entry that the queue did not delete, in order.
  abbrev pub told_undeleted : Option (String → Response → S → S) → List String → S → S
  told_undeleted hook [] s = s
  told_undeleted hook (id ∷ ids) s = told_undeleted hook ids (told hook id undeleted s)

  -- How the deletion ends: nothing is asked of the queue without an entry; and else one request has
  -- all entries, whose error is the poll's, or whose failed entries go to the hook.
  pub data Deleted (c : Consumer S)
      : List (String × String) → S → Flow (Option String) → S → Type 0 where
    nothing_deleted : (s : S) → Deleted c [] s (ret none) s
    refused :
        (entry : String × String) (entries : List (String × String)) (s s' : S) (err : String)
        → c.delete_batch (entry ∷ entries) s ≡ (ret (inr err), s')
        → Deleted c (entry ∷ entries) s (ret (some err)) s'
    answered :
        (entry : String × String) (entries : List (String × String)) (s s' : S) (ids : List String)
        → c.delete_batch (entry ∷ entries) s ≡ (ret (inl ids), s')
        → Deleted c (entry ∷ entries) s (ret none) (told_undeleted c.on_failure ids s')
    broken :
        (entry : String × String) (entries : List (String × String)) (s s' : S) (text : String)
        → c.delete_batch (entry ∷ entries) s ≡ (panic text, s')
        → Deleted c (entry ∷ entries) s (panic text) s'

  report_failure-told :
      (hook : Option (String → Response → S → S)) (id : String) (response : Response) (s : S)
      → report_failure hook id response s ≡ (ret tt, told hook id response s)
  unfolding report_failure
  report_failure-told none id response s = refl
  report_failure-told (some f) id response s = refl

  report_undeleted-told :
      (c : Consumer S) (ids : List String) (s : S)
      → report_undeleted c ids s ≡ (ret tt, told_undeleted c.on_failure ids s)
  unfolding report_undeleted
  report_undeleted-told c [] s = refl
  report_undeleted-told c (id ∷ ids) s =
      rw (report_failure-told c.on_failure id undeleted s)
        (report_undeleted-told c ids (told c.on_failure id undeleted s))

  delete_messages-Deleted :
      (c : Consumer S) (entries : List (String × String)) (s : S)
      → (result : Flow (Option String)) × (s' : S) × (delete_messages c entries s ≡ (result, s'))
        × Deleted c entries s result s'
  unfolding delete_messages
  delete_messages-Deleted c [] s = (ret none, s, refl, nothing_deleted s)
  delete_messages-Deleted c (entry ∷ entries) s = go (c.delete_batch (entry ∷ entries) s) refl
    where
      go :
          (p : Flow (List String ⊎ String) × S)
          → c.delete_batch (entry ∷ entries) s ≡ p
          → (result : Flow (Option String)) × (s' : S) × (delete_messages c (entry ∷ entries) s
              ≡ (result, s'))
            × Deleted c (entry ∷ entries) s result s'
      go (ret (inr err), s') e =
          (ret (some err), s', rw (e, delete_messages) refl, refused entry entries s s' err e)
      go (ret (inl ids), s') e = (
        ret none,
        told_undeleted c.on_failure ids s',
        rw (e, delete_messages) (rw (report_undeleted-told c ids s') refl),
        answered entry entries s s' ids e,
      )
      go (panic text, s') e =
          (panic text, s', rw (e, delete_messages) refl, broken entry entries s s' text e)

  settle_messages-Handled :
      (c : Consumer S) (dispatch : ℕ → SqsRecord → Go S DispatchOutcome)
      → IsReturning dispatch
      → (scope : ℕ) (messages : List SqsRecord) (s : S)
      → (outs : List (SqsRecord × DispatchOutcome)) × (s' : S) × (settle_messages c dispatch scope
            messages s
          ≡ (ret (acknowledged_entries outs), s'))
        × Handled c dispatch scope messages s outs s'
  unfolding settle_messages acknowledged_entries dispatch_and_report
  settle_messages-Handled c dispatch returns scope [] s = ([], s, refl, none_left scope s)
  settle_messages-Handled c dispatch returns scope (r ∷ rs) s =
      let (out, s', ran) = returns scope r s in
      elim (Bool-cases out.successful) [
        | inl good ↦
            let (outs, s'', rest, handled) =
              settle_messages-Handled c dispatch returns (suc scope) rs s' in
            (
              (r, out) ∷ outs,
              s'',
              rw (ran, settle_messages) (rw good (rw rest refl)),
              succeeded scope r rs out outs s s' s'' ran good handled,
            )
        | inr bad ↦
            let (outs, s'', rest, handled) =
              settle_messages-Handled c dispatch returns (suc scope) rs
                (told c.on_failure r.message_id out.response s') in
            (
              (r, out) ∷ outs,
              s'',
              rw (ran, settle_messages)
                  (rw bad (
                    rw (report_failure-told c.on_failure r.message_id out.response s')
                      (rw rest refl))),
              failed scope r rs out outs s s' s'' ran bad handled,
            )
      ]

  -- A poll that received messages, where no dispatch panics, dispatches each of them once and in
  -- order, and tells the hook, if there is one, of the unsuccessful ones, and of no other. It then
  -- asks the queue once to delete exactly the messages that were acknowledged, or asks nothing if
  -- there are none: an error of that request is the poll's error, and else the hook is told of
  -- every entry that was not deleted.
  pub poll-Deleted :
      (c : Consumer S) (dispatch : ℕ → SqsRecord → Go S DispatchOutcome) (scope : ℕ)
      (messages : List SqsRecord) (s s' : S)
      → c.receive s ≡ (ret (inl messages), s')
      → IsReturning dispatch
      → (outs : List (SqsRecord × DispatchOutcome)) × (handled : S) × (result : Flow
          (Option String))
        × (final : S) × Handled c dispatch scope messages s' outs handled
        × Deleted c (acknowledged_entries outs) handled result final
        × (poll c dispatch scope s ≡ (result, final))
  unfolding poll
  poll-Deleted c dispatch scope messages s s' received returns =
      let (outs, s'', settled, handled) =
        settle_messages-Handled c dispatch returns scope messages s' in
      let (result, final, ran, deleted) =
        delete_messages-Deleted c (acknowledged_entries outs) s'' in
      (outs, s'', result, final, handled, deleted, rw received (rw settled ran))
