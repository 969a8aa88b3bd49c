-- ===== src/Aws/Streams/Ordered.antt =====
-- A shard is never passed by beyond a record that was not acknowledged.
use benzene_go.Prelude.{
  ℕ, suc, refl, ap, subst, inl, inr, Bool, true, false, Option, none, some, List, [], arith,
  Bool-cases, Option-cases, length, ◌+◌, ◌≡◌, ◌∷◌, ◌++◌,
}
use benzene_go.Flow.{Go, ret}
use benzene_go.Wire.{Request}
use benzene_go.Envelope.Settling.{DispatchOutcome}
use benzene_go.Aws.Streams.{settle_record, settle_stream}

module _ {S R : Type 0} (at_most_once : Bool) (resolve : R → Option Request)
    (dispatch : ℕ → Request → Go S DispatchOutcome) where
  -- What one record comes to: it is dispatched and acknowledged, or not, or cannot be read.
  pub data Settled : ℕ → R → S → Bool → S → Type 0 where
    dispatched :
        (scope : ℕ) (r : R) (request : Request) (out : DispatchOutcome) (s s' : S)
        → resolve r ≡ some request
        → dispatch scope request s ≡ (ret out, s')
        → Settled scope r s out.acknowledge s'
    unreadable : (scope : ℕ) (r : R) (s : S) → resolve r ≡ none → Settled scope r s at_most_once s

  -- These records, one after another, were all settled so that the next one may run.
  pub data Passed : ℕ → List R → S → S → Type 0 where
    none_left : (scope : ℕ) (s : S) → Passed scope [] s s
    one_more :
        (scope : ℕ) (r : R) (rs : List R) (s s' s'' : S)
        → Settled scope r s true s'
        → Passed (suc scope) rs s' s''
        → Passed scope (r ∷ rs) s s''

  -- Every record was passed by, or there is a first that was not: it is the one reported, and no
  -- record after it ran.
  pub data Reported (scope : ℕ) (records : List R) (s : S) : Option R → S → Type 0 where
    all_passed : (s' : S) → Passed scope records s s' → Reported scope records s none s'
    stopped_at :
        (before after : List R) (r : R) (s' s'' : S)
        → records ≡ before ++ r ∷ after
        → Passed scope before s s'
        → Settled (scope + length before) r s' false s''
        → Reported scope records s (some r) s''

  settle_record-Settled :
      ((scope : ℕ) (request : Request) (s : S)
        → (out : DispatchOutcome) × (s' : S) × (dispatch scope request s ≡ (ret out, s')))
      → (scope : ℕ) (r : R) (s : S)
      → (go_on : Bool) × (s' : S) × (settle_record at_most_once resolve dispatch scope r s
          ≡ (ret go_on, s'))
        × Settled scope r s go_on s'
  unfolding settle_record
  settle_record-Settled returns scope r s = elim (Option-cases (resolve r)) [
    | inl broken ↦ (at_most_once, s, rw (broken, settle_record) refl, unreadable scope r s broken)
    | inr (request, e) ↦
        let (out, s', ran) = returns scope request s in
        (
          out.acknowledge,
          s',
          rw (e, settle_record) (rw ran refl),
          dispatched scope r request out s s' e ran,
        )
  ]

  later :
      (scope : ℕ) (r : R) (rs : List R) (s s' : S) (report : Option R) (s'' : S)
      → Settled scope r s true s'
      → Reported (suc scope) rs s' report s''
      → Reported scope (r ∷ rs) s report s''
  later scope r rs s s' _ s'' one (all_passed _ rest) =
      all_passed s'' (one_more scope r rs s s' s'' one rest)
  later scope r rs s s' _ s'' one (stopped_at before after at t _ e passed stop) =
      stopped_at (r ∷ before) after at t s'' (ap (λ l. r ∷ l) e)
        (one_more scope r before s s' t one passed)
        (subst (λ n. Settled n at t false s'') (omega arith) stop)

  -- Where no dispatch panics, the loop returns, and its report is right.
  pub settle_stream-Reported :
      ((scope : ℕ) (request : Request) (s : S)
        → (out : DispatchOutcome) × (s' : S) × (dispatch scope request s ≡ (ret out, s')))
      → (scope : ℕ) (records : List R) (s : S)
      → (report : Option R) × (s' : S) × (settle_stream at_most_once resolve dispatch scope records
            s
          ≡ (ret report, s'))
        × Reported scope records s report s'
  unfolding settle_stream
  settle_stream-Reported returns scope [] s = (none, s, refl, all_passed s (none_left scope s))
  settle_stream-Reported returns scope (r ∷ rs) s =
      let (go_on, s', ran, settled) = settle_record-Settled returns scope r s in
      let (report, s'', rest, reported) = settle_stream-Reported returns (suc scope) rs s' in
      elim (Bool-cases go_on) [
        | inl on ↦ (
          report,
          s'',
          rw (ran, settle_stream) (rw on rest),
          later scope r rs s s' report s'' (subst (λ b. Settled scope r s b s') on settled)
              reported,
        )
        | inr off ↦ (
          some r,
          s',
          rw (ran, settle_stream) (rw off refl),
          stopped_at [] rs r s s' refl (none_left scope s) (
              subst (λ b. Settled (scope + 0) r s b s') off
                (subst (λ n. Settled n r s go_on s') (omega arith) settled)),
        )
      ]
