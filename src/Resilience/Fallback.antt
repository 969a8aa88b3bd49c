-- ===== src/Resilience/Fallback.antt =====
-- resilience/fallback.go
pub mod Defaults
use benzene_go.Prelude.{Bool, Option, none, some, if◌then◌else◌}
use benzene_go.Flow.{Go, Err, pure, gets, ◌>>=◌}
use benzene_go.Result.{ResultInfo}
use benzene_go.Pipeline.{Ctx, State, Middleware}
use benzene_go.Resilience.{unsuccessful, default_on_error}

pub record FallbackConfig (V : Type 0) : Type 0 where
  pub on_error : Err → Bool
  pub on_result : Option (ResultInfo V) → Bool

unfoldable pub default_config : {V : Type 0} → FallbackConfig V
default_config = record { on_error = default_on_error; on_result = unsuccessful }

abbrev pub FallbackFunc : Type 0 → Type 0 → Type 0 → Type 0
FallbackFunc C V W = Ctx C → Option Err → Go (State V W) (Option Err)

module _ {C V W : Type 0} (cfg : FallbackConfig V) (substitute : FallbackFunc C V W) where
  after_attempt : Ctx C → Option Err → Option (ResultInfo V) → Go (State V W) (Option Err)
  after_attempt ctx (some err) result =
      if cfg.on_error err then substitute ctx (some err) else pure (some err)
  after_attempt ctx none result = if cfg.on_result result then substitute ctx none else pure none

  -- `Fallback`
  unfoldable pub fallback : Middleware C V W
  unfolding after_attempt
  fallback ctx next = do
    err ← next ctx
    result ← gets (λ s. s.ic.result)
    after_attempt ctx err result
