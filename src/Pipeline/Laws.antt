-- ===== src/Pipeline/Laws.antt =====
-- The order of a pipeline.
use benzene_go.Prelude.{refl, List, [], ◌≡◌, ◌∷◌, ◌++◌}
use benzene_go.Pipeline.{Ctx, Next, Middleware, run_from}

module _ {C V W : Type 0} where
  -- Middlewares around a last step, the first of them outermost.
  abbrev pub through : List (Middleware C V W) → Next C V W → Next C V W
  through [] last = last
  through (mw ∷ mws) last = λ ctx. mw ctx (through mws last)

  -- A pipeline of two lists of middlewares runs the first list around the pipeline of the second,
  -- the first of them outermost.
  pub run_from-append :
      (mws more : List (Middleware C V W)) → run_from (mws ++ more) ≡ through mws (run_from more)
  unfolding run_from
  run_from-append [] more = refl
  run_from-append (mw ∷ mws) more = λ i ctx. mw ctx (run_from-append mws more i)

  -- A middleware that does not depend on what comes after it.
  abbrev pub EndsPipeline : Middleware C V W → Type 0
  EndsPipeline mw = (ctx : Ctx C) (next other : Next C V W) → mw ctx next ≡ mw ctx other

  -- What stands behind a middleware whose runs do not depend on the next step has no effect on the
  -- pipeline.
  pub run_from-EndsPipeline :
      (before after : List (Middleware C V W)) (mw : Middleware C V W)
      → EndsPipeline mw
      → run_from (before ++ mw ∷ after) ≡ run_from (before ++ mw ∷ [])
  unfolding run_from
  run_from-EndsPipeline [] after mw ends = λ i ctx. ends ctx (run_from after) (run_from []) i
  run_from-EndsPipeline (first ∷ before) after mw ends =
      λ i ctx. first ctx (run_from-EndsPipeline before after mw ends i)
