-- ===== src/Pipeline.antt =====
-- context.go and middleware.go: an invocation, and the onion of middleware that runs on it.
-- `V` is the type of dynamic values, `W` of the world outside the invocation (stores, clocks,
-- services), and `C` of what else rides on a `context.Context`.
pub mod Laws
use benzene_go.Prelude.{
  ℕ, String, Bool, true, false, Option, none, some, List, [], ◌∷◌, if◌then◌else◌, string_eq, nat_eq,
}
use benzene_go.Maps.{Map, insert}
use benzene_go.Flow.{Go, Err, message, pure, ret}
use benzene_go.Topic.{Topic}
use benzene_go.Result.{ResultInfo}

-- A context carries the scope of an invocation, by identity, and the invocation itself.
pub record Ctx (C : Type 0) : Type 0 where
  pub base : C
  pub scope : Option ℕ
  pub invocation : Bool

pub record Invocation (V : Type 0) : Type 0 where
  pub topic : Topic
  pub headers : Map String String
  pub request : Option V
  pub result : Option (ResultInfo V)
  pub scope : Option ℕ
  pub response_headers : Map String String

-- What a middleware may read and write: the shared invocation, and the world.
pub record State (V W : Type 0) : Type 0 where
  pub ic : Invocation V
  pub world : W

abbrev pub Next : Type 0 → Type 0 → Type 0 → Type 0
Next C V W = Ctx C → Go (State V W) (Option Err)

abbrev pub Middleware : Type 0 → Type 0 → Type 0 → Type 0
Middleware C V W = Ctx C → Next C V W → Go (State V W) (Option Err)

-- `NewInvocationContext`; a nil header map becomes an empty one.
unfoldable pub new_invocation :
    {V : Type 0} → Topic → Option (Map String String) → Option V → Option ℕ → Invocation V
new_invocation topic headers request scope = record {
  topic = topic;
  headers = elim headers [ none ↦ [] | some h ↦ h ];
  request = request;
  result = none;
  scope = scope;
  response_headers = [];
}

unfoldable pub set_result : {V W : Type 0} → ResultInfo V → State V W → State V W
set_result r s = record s { ic = record s.ic { result = some r } }

-- `(*InvocationContext).SetResponseHeader`; `to_lower` is `strings.ToLower`.
unfoldable pub set_response_header :
    {V : Type 0} → (String → String) → String → String → Invocation V → Invocation V
set_response_header to_lower name value ic = record ic {
  response_headers = insert (to_lower name) value ic.response_headers;
}

-- The function `SetResponseHeader(ctx, …)` of a handler.
unfoldable pub set_header_from_ctx :
    {C V W : Type 0} → (String → String) → Ctx C → String → String → Go (State V W) Bool
unfolding set_response_header
set_header_from_ctx to_lower ctx name value s =
    if ctx.invocation
    then (ret true, record s { ic = set_response_header to_lower name value s.ic })
    else (ret false, s)

-- `contextWithInvocation` and `ContextWithScope`.
unfoldable pub context_with_invocation : {C : Type 0} → Ctx C → Ctx C
context_with_invocation ctx = record ctx { invocation = true }

unfoldable pub context_with_scope : {C : Type 0} → Ctx C → ℕ → Ctx C
context_with_scope ctx scope = record ctx { scope = some scope }

abbrev pub no_pipeline : Err
no_pipeline = message "benzene: no pipeline configured on this ApplicationBuilder"

module _ {C V W : Type 0} where
  -- `runFrom`: the middlewares from an index on are the rest of the list.
  unfoldable pub run_from : List (Middleware C V W) → Next C V W
  run_from [] ctx = pure none
  run_from (mw ∷ mws) ctx = mw ctx (run_from mws)

  -- `(*Pipeline).Run`; `none` is a nil pipeline.
  unfoldable pub run : Option (List (Middleware C V W)) → Next C V W
  unfolding run_from
  run none ctx = pure (some no_pipeline)
  run (some mws) ctx = run_from mws ctx
