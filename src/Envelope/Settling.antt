-- ===== src/Envelope/Settling.antt =====
-- envelope/settlement.go: whether a one-way binding may forget a message.
pub mod Acknowledged
use benzene_go.Prelude.{ℕ, String, Bool, true, false, Option, List, ◌&&◌, ◌||◌}
use benzene_go.Maps.{Map}
use benzene_go.Flow.{Go, pure, ◌>>=◌}
use benzene_go.Topic.{Topic, new_topic}
use benzene_go.Wire.{Request, Response}
use benzene_go.Pipeline.{Ctx, State, Middleware}
use benzene_go.Envelope.{Json, dispatch_message}

-- `Delivery` and `Settlement`
pub data Delivery : Type 0 where
  binding_default at_least_once at_most_once : Delivery

pub record Settlement : Type 0 where
  pub delivery : Delivery
  pub ignore_unmatched_topics : Bool

abbrev pub is_at_most_once : Delivery → Bool
is_at_most_once at_most_once = true
is_at_most_once _ = false

-- The envelope's `Outcome`.
pub record DispatchOutcome : Type 0 where
  pub response : Response
  pub successful : Bool
  pub acknowledge : Bool

unfoldable pub settled_outcome : Settlement → Response × Bool × Bool → DispatchOutcome
settled_outcome settlement (response, successful, unmatched) = record {
  response = response;
  successful = successful;
  acknowledge =
      successful
      || is_at_most_once settlement.delivery
      || (settlement.ignore_unmatched_topics && unmatched);
}

module _ {C V W : Type 0} where
  -- `Settlement.DispatchTopic` and `Settlement.Dispatch`
  unfoldable pub settle_topic :
      Settlement
      → Json V
      → Option (List (Middleware C V W))
      → Ctx C
      → ℕ
      → Topic
      → Map String String
      → String
      → Go (State V W) DispatchOutcome
  unfolding dispatch_message settled_outcome
  settle_topic settlement json pipeline ctx scope topic headers body = do
    ran ← dispatch_message json pipeline ctx scope topic headers body
    pure (settled_outcome settlement ran)

  unfoldable pub settle_request :
      Settlement
      → Json V
      → Option (List (Middleware C V W))
      → Ctx C
      → ℕ
      → Request
      → Go (State V W) DispatchOutcome
  unfolding settle_topic new_topic
  settle_request settlement json pipeline ctx scope req =
      settle_topic settlement json pipeline ctx scope (new_topic req.topic) req.headers req.body
