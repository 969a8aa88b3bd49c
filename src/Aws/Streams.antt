-- ===== src/Aws/Streams.antt =====
-- The loop that awskinesis and awsdynamodb share: the records of a shard in order, up to the first
-- that may not be passed by.
pub mod Ordered
use benzene_go.Prelude.{ℕ, suc, Bool, Option, none, some, List, [], ◌∷◌, if◌then◌else◌}
use benzene_go.Flow.{Go, pure, ◌>>=◌}
use benzene_go.Wire.{Request}
use benzene_go.Envelope.Settling.{DispatchOutcome}

module _ {S R : Type 0} (at_most_once : Bool) (resolve : R → Option Request)
    (dispatch : ℕ → Request → Go S DispatchOutcome) where
  -- One record: whether to go on. `resolve` is `none` on an error.
  unfoldable pub settle_record : ℕ → R → Go S Bool
  settle_record scope r = elim (resolve r) [
    | none ↦ pure at_most_once
    | some request ↦ do outcome ← dispatch scope request; pure outcome.acknowledge
  ]

  -- The loop: the record that it stopped at.
  unfoldable pub settle_stream : ℕ → List R → Go S (Option R)
  unfolding settle_record
  settle_stream scope [] = pure none
  settle_stream scope (r ∷ rs) = do
    go_on ← settle_record scope r
    if go_on then settle_stream (suc scope) rs else pure (some r)
