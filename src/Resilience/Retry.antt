-- ===== src/Resilience/Retry.antt =====
-- resilience/retry.go: the retry loop. A duration is a number of nanoseconds, as all delays that
-- the loop forms are; a negative `retries` ends the loop at once, as 0 does. Go's float64 is the
-- interface `Floats`, and the sleep and the jitter are the options of the configuration.
pub mod Attempts
use benzene_go.Prelude.{ℕ, zero, suc, Bool, Option, none, some, ltb, ◌-◌, ◌^◌, ◌&&◌, if◌then◌else◌}
use benzene_go.Flow.{Go, Err, Flow, ret, pure, gets, ◌>>=◌}
use benzene_go.Result.{ResultInfo}
use benzene_go.Pipeline.{Ctx, State, Next, Middleware}

-- `float64`, as far as `growDelay` uses it: conversion from and to an integer, product, `>=`.
pub record Floats : Type 1 where
  pub Float : Type 0
  pub from_int : ℕ → Float
  pub to_int : Float → ℕ
  pub times : Float → Float → Float
  pub at_least : Float → Float → Bool

abbrev pub max_int64 : ℕ
max_int64 = 2 ^ 63 - 1

module _ (floats : Floats) where
  open floats use {Float, from_int, to_int, times, at_least}

  -- `growDelay`
  unfoldable pub grow_delay : ℕ → Float → ℕ
  grow_delay d factor =
      let next = times (from_int d) factor in
      if at_least next (from_int max_int64) then max_int64 else to_int next

-- The resolved knobs. `grow` is `growDelay` at the configured factor.
pub record Config (C V W : Type 0) : Type 0 where
  pub retries : ℕ
  pub initial_delay : ℕ
  pub grow : ℕ → ℕ
  pub max_delay : ℕ
  pub retry_on_error : Err → Bool
  pub retry_on_result : Option (ResultInfo V) → Bool
  pub jitter : ℕ → Go (State V W) ℕ
  pub sleep : Ctx C → ℕ → Go (State V W) (Option Err)

-- The sleep is capped, the growth of the delay is not.
unfoldable pub capped : {C V W : Type 0} → Config C V W → ℕ → ℕ
capped cfg delay = if ltb 0 cfg.max_delay && ltb cfg.max_delay delay then cfg.max_delay else delay

-- Whether an attempt's outcome is one that the configuration retries.
unfoldable pub retryable :
    {C V W : Type 0} → Config C V W → Option Err → Option (ResultInfo V) → Bool
retryable cfg (some err) result = cfg.retry_on_error err
retryable cfg none result = cfg.retry_on_result result

module _ {C V W : Type 0} (cfg : Config C V W) (ctx : Ctx C) (next : Next C V W) where
  -- Between two attempts: the jittered sleep.
  unfoldable pub back_off : ℕ → Go (State V W) (Option Err)
  unfolding capped
  back_off delay = do pause ← cfg.jitter (capped cfg delay); cfg.sleep ctx pause

  -- The loop with `left` retries to go, `attempt >= cfg.retries` being `left` = 0.
  unfoldable pub retry_loop : ℕ → ℕ → Go (State V W) (Option Err)
  unfolding retryable back_off
  retry_loop zero delay = next ctx
  retry_loop (suc left) delay =
      let again = retry_loop left (cfg.grow delay) in
      do
        err ← next ctx
        result ← gets (λ s. s.ic.result)
        if retryable cfg err result
            then (do
              stopped ← back_off delay
              elim stopped [ some e ↦ pure (some e) | none ↦ again ])
            else pure err

module _ {C V W : Type 0} where
  -- `Middleware`
  unfoldable pub retry : Config C V W → Middleware C V W
  unfolding retry_loop
  retry cfg ctx next = retry_loop cfg ctx next cfg.retries cfg.initial_delay
