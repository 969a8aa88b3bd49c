-- ===== src/Aws/Batches.antt =====
-- A batch whose messages run one after another, each with its own scope. A message is settled by a
-- step, which is given the id of that scope.
use benzene_go.Prelude.{ℕ, suc, List, [], ◌≡◌, ◌∷◌}
use benzene_go.Flow.{Go, ret}
use benzene_go.Envelope.Settling.{DispatchOutcome}

module _ {S R : Type 0} (step : ℕ → R → Go S DispatchOutcome) where
  -- Every step returns, on every state: no middleware lets a panic through.
  abbrev pub IsReturning : Type 0
  IsReturning =
      (scope : ℕ) (r : R) (s : S)
      → (out : DispatchOutcome) × (s' : S) × (step scope r s ≡ (ret out, s'))

  -- The messages ran in order, one after another, each with the outcome beside it.
  pub data Ran : ℕ → List R → S → List (R × DispatchOutcome) → S → Type 0 where
    nothing : (scope : ℕ) (s : S) → Ran scope [] s [] s
    first :
        (scope : ℕ) (r : R) (rs : List R) (s s' s'' : S) (out : DispatchOutcome)
        (outs : List (R × DispatchOutcome))
        → step scope r s ≡ (ret out, s')
        → Ran (suc scope) rs s' outs s''
        → Ran scope (r ∷ rs) s ((r, out) ∷ outs) s''

  pub Ran-total :
      IsReturning
      → (scope : ℕ) (rs : List R) (s : S)
      → (outs : List (R × DispatchOutcome)) × (s' : S) × Ran scope rs s outs s'
  Ran-total returns scope [] s = ([], s, nothing scope s)
  Ran-total returns scope (r ∷ rs) s =
      let (out, s', ran) = returns scope r s in
      let (outs, s'', rest) = Ran-total returns (suc scope) rs s' in
      ((r, out) ∷ outs, s'', first scope r rs s s' s'' out outs ran rest)
