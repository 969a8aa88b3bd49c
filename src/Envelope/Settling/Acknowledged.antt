-- ===== src/Envelope/Settling/Acknowledged.antt =====
-- Which messages a one-way binding acknowledges, by the way their pipeline ended.
use benzene_go.Prelude.{
  ℕ, String, refl, inl, inr, Bool, false, Option, none, some, List, arith, Option-cases, ◌≡◌, ◌&&◌,
  ◌||◌,
}
use benzene_go.Maps.{Map}
use benzene_go.Flow.{Err, ret}
use benzene_go.Topic.{Topic}
use benzene_go.Result.{ResultInfo, is_unmatched_topic}
use benzene_go.Pipeline.{Ctx, State, Middleware, Invocation, new_invocation, run}
use benzene_go.Envelope.{Json, dispatch_message, reported, result_successful}
use benzene_go.Envelope.Settling.{
  Settlement, is_at_most_once, DispatchOutcome, settled_outcome, settle_topic,
}

module _ {V : Type 0} where
  -- The message was handled: no error, and a successful result.
  abbrev pub handled : Option Err → Option (ResultInfo V) → Bool
  handled none (some r) = result_successful r
  handled _ _ = false

  -- The message was nobody's: no error, and a result that is marked as an unmatched topic.
  abbrev pub unclaimed : Option Err → Option (ResultInfo V) → Bool
  unclaimed none (some r) = is_unmatched_topic r
  unclaimed _ _ = false

  abbrev pub acknowledged : Settlement → Option Err → Option (ResultInfo V) → Bool
  acknowledged settlement err result =
      handled err result
      || is_at_most_once settlement.delivery
      || (settlement.ignore_unmatched_topics && unclaimed err result)

  reported-acknowledged :
      (settlement : Settlement) (json : Json V) (err : Option Err) (ic : Invocation V)
      → (settled_outcome settlement (reported json err ic)).acknowledge
        ≡ acknowledged settlement err ic.result
  unfolding settled_outcome reported
  reported-acknowledged settlement json (some err) ic = ground arith
  reported-acknowledged settlement json none ic = elim (Option-cases ic.result) [
    | inl missing ↦ rw missing (ground arith)
    | inr (r, e) ↦ rw e refl
  ]

module _ {C V W : Type 0} (settlement : Settlement) (json : Json V)
    (pipeline : Option (List (Middleware C V W))) (ctx : Ctx C) (scope : ℕ) where
  -- Where the pipeline returns on the message's fresh invocation, the settled dispatch returns
  -- with the state that the pipeline left, and acknowledges the message exactly when there was no
  -- error and the result is successful, or delivery is at most once, or unmatched topics are
  -- ignored, there was no error and the result is marked as an unmatched topic.
  pub settle_topic-acknowledged :
      (topic : Topic) (headers : Map String String) (body : String) (s s' : State V W)
      (err : Option Err)
      → run pipeline ctx (record s {
        ic = new_invocation topic (some headers) (some (json.raw body)) (some scope);
      })
        ≡ (ret err, s')
      → (out : DispatchOutcome) × (settle_topic settlement json pipeline ctx scope topic headers
            body s
          ≡ (ret out, s'))
        × (out.acknowledge ≡ acknowledged settlement err s'.ic.result)
  unfolding settle_topic dispatch_message
  settle_topic-acknowledged topic headers body s s' err ran = (
    settled_outcome settlement (reported json err s'.ic),
    rw (ran, settle_topic) refl,
    reported-acknowledged settlement json err s'.ic,
  )
