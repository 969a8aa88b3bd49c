-- ===== src/Idempotency.antt =====
-- idempotency/idempotency.go and idempotency/store.go: the de-duplicating middleware over a store,
-- and the in-memory store. Times and durations are nanoseconds on one clock.
pub mod Exclusive
pub mod Redelivery
use Prim.Native.String
use benzene_go.Prelude.{
  ℕ, String, inl, inr, Bool, false, not, Option, none, some, [], ltb, ◌+◌, ◌⊎◌, ◌∷◌, ◌++◌,
  if◌then◌else◌, ◌==◌, string_eq, nat_eq,
}
use benzene_go.Maps.{Map, lookup, insert, delete}
use benzene_go.Flow.{Go, Err, Flow, ret, panic, pure, gets, ◌>>=◌, ◌>>◌}
use benzene_go.Topic.{to_string}
use benzene_go.Status.{is_failure}
use benzene_go.Result.{Result, ResultInfo, ignored, conflict}
use benzene_go.Pipeline.{Ctx, Invocation, State, Next, Middleware}
use benzene_go.Router.{put_result}

pub data RecordStatus : Type 0 where
  in_progress completed : RecordStatus

pub data ClaimResult : Type 0 where
  won : ClaimResult
  lost : RecordStatus → ClaimResult

-- `Store`, over a world that holds it. An error of `Claim` is `inr`.
pub record Store (W : Type 0) : Type 0 where
  pub claim : String → W → (ClaimResult ⊎ Err) × W
  pub complete : String → W → Option Err × W
  pub release : String → W → Option Err × W

-- `resultSuccessful`
unfoldable pub result_successful : {V : Type 0} → Option (ResultInfo V) → Bool
result_successful none = false
result_successful (some r) = elim r.result_is_successful [
  | some b ↦ b
  | none ↦ not (is_failure r.result_status)
]

-- `headerValue`: the exact name first, then any name that folds to it.
unfoldable pub folded_value : (String → String → Bool) → Map String String → String → String
folded_value equal_fold [] name = ""
folded_value equal_fold ((key, value) ∷ headers) name =
    if equal_fold key name then value else folded_value equal_fold headers name

unfoldable pub header_value : (String → String → Bool) → Map String String → String → String
unfolding folded_value lookup
header_value equal_fold headers name = elim (lookup name headers) [
  | some value ↦ value
  | none ↦ folded_value equal_fold headers name
]

-- `HeaderKey`; `separator` is the text of the one character 0.
unfoldable pub header_key :
    {V : Type 0} → (String → String → Bool) → String → String → Invocation V → String
unfolding header_value to_string
header_key equal_fold separator header ic =
    let value = header_value equal_fold ic.headers header in
    if value == "" then "" else String.◌++◌ (to_string ic.topic) (String.◌++◌ separator value)

module _ {V W : Type 0} where
  abbrev pub in_world : {A : Type 0} → (W → A × W) → Go (State V W) A
  in_world f s = let (a, w) = f s.world in (ret a, record s { world = w })

module _ {V W : Type 0} (store : Store W) where
  settle_error : String → Err → Go (State V W) (Option Err)
  settle_error k err = do in_world (store.release k); pure (some err)

  settle : String → Option (ResultInfo V) → Go (State V W) (Option Err)
  settle k result =
      if result_successful result
      then (do in_world (store.complete k); pure none)
      else (do in_world (store.release k); pure none)

  after_next : String → Option Err → Go (State V W) (Option Err)
  after_next k (some err) = settle_error k err
  after_next k none = do result ← gets (λ s. s.ic.result); settle k result

module _ {C V W : Type 0} (store : Store W) where
  after_claim : String → ClaimResult ⊎ Err → Ctx C → Next C V W → Go (State V W) (Option Err)
  after_claim k (inr err) ctx next = next ctx
  after_claim k (inl (lost completed)) ctx next = do put_result (ret (ignored none)); pure none
  after_claim k (inl (lost in_progress)) ctx next = do
    put_result (conflict ("idempotency key already in progress" ∷ []))
    pure none
  after_claim k (inl won) ctx next = do err ← next ctx; after_next store k err

  -- `Middleware`. Where `next` panics the claim is neither completed nor released.
  unfoldable pub middleware : (Invocation V → String) → Middleware C V W
  unfolding after_claim after_next settle settle_error result_successful
  middleware key ctx next = do
    k ← gets (λ s. key s.ic)
    if k == ""
        then next ctx
        else (do claim ← in_world (store.claim k); after_claim k claim ctx next)

pub record Entry : Type 0 where
  pub status : RecordStatus
  pub expires_at : ℕ

-- The in-memory store, with the clock that it reads.
pub record Memory : Type 0 where
  pub entries : Map String Entry
  pub lease_ttl : ℕ
  pub completed_ttl : ℕ
  pub now : ℕ

abbrev write : String → RecordStatus → ℕ → Memory → Memory
write key status expires_at m = record m {
  entries = insert key (record { status = status; expires_at = expires_at }) m.entries;
}

unfoldable pub live : ℕ → Option Entry → Option RecordStatus
live now none = none
live now (some e) = if ltb now e.expires_at then some e.status else none

unfoldable pub claim : String → Memory → (ClaimResult ⊎ Err) × Memory
unfolding live
claim key m = elim (live m.now (lookup key m.entries)) [
  | some status ↦ (inl (lost status), m)
  | none ↦ (inl won, write key in_progress (m.now + m.lease_ttl) m)
]

unfoldable pub complete : String → Memory → Option Err × Memory
complete key m = elim (lookup key m.entries) [
  | some e ↦ (none, write key completed (m.now + m.completed_ttl) m)
  | none ↦ (none, m)
]

unfoldable pub release : String → Memory → Option Err × Memory
release key m = (none, record m { entries = delete key m.entries })

unfoldable pub in_memory_store : Store Memory
unfolding claim complete release
in_memory_store = record { claim = claim; complete = complete; release = release }
