-- ===== src/Tests/Deliveries.antt =====
-- A message that is delivered twice, and what guards a call.
use benzene_go.Maps.{lookup, insert}
use benzene_go.Prelude.{
  ℕ, String, refl, inl, none, some, List, [], arith, ◌≡◌, ◌∷◌, string_eq, nat_eq,
}
use benzene_go.Flow.{ret, pure, message, ◌>>◌}
use benzene_go.Result.{erase, ok, ignored}
use benzene_go.Status.{is_failure}
use benzene_go.Topic.{Topic}
use benzene_go.Pipeline.{State, Next, Invocation, new_invocation}
use benzene_go.Router.{put_result}
use benzene_go.Idempotency.{
  Memory, claim, won, lost, in_progress, in_memory_store, middleware, result_successful,
}
use benzene_go.Idempotency.Exclusive.{
  Op, claims, completes, releases, ticks, apply_all, elapsed, claim-exclusive,
}
use benzene_go.Idempotency.Redelivery.{Delivered, claimed, redelivery-ignored, failure_frees}
use benzene_go.Tests.Routing.{ctx}

abbrev fresh : Memory
fresh = record { entries = []; lease_ttl = 100; completed_ttl = 1000; now = 5 }

abbrev others : List Op
others = claims "k" ∷ claims "j" ∷ ticks 40 ∷ completes "j" ∷ releases "i" ∷ ticks 50 ∷ []

claim-exclusive_example :
    (claim "k" (apply_all others (claim "k" fresh).1)).0 ≡ inl (lost in_progress)
unfolding claim lookup elapsed
claim-exclusive_example =
    claim-exclusive "k" others fresh refl (tt, (tt, (tt, (refl, (refl, (tt, tt)))))) (omega arith)

abbrev order : Topic
order = record { id = "orders:create"; version = "" }

abbrev arrived : State ℕ Memory
arrived = record { ic = new_invocation order none (some 7) none; world = fresh }

abbrev key_of : Invocation ℕ → String
key_of ic = "k"

abbrev succeeds : Next (Unit {0}) ℕ Memory
succeeds c s =
    (ret none, record s { ic = record s.ic { result = some (erase (λ (n : ℕ). some n) (ok 1)) } })

abbrev fails : Next (Unit {0}) ℕ Memory
fails c s = (ret (some (message "broken")), s)

abbrev handled : State ℕ Memory
handled = (succeeds ctx (claimed key_of ctx arrived)).1

abbrev redelivered : State ℕ Memory
redelivered = record arrived {
  world = (middleware in_memory_store key_of ctx succeeds arrived).1.world;
}

succeeds-Delivered : Delivered key_of ctx succeeds arrived handled none
unfolding claim lookup elapsed
succeeds-Delivered = record { keyed = refl; wins = refl; returns = refl }

fails-Delivered :
    Delivered key_of ctx fails arrived (claimed key_of ctx arrived) (some (message "broken"))
unfolding claim lookup elapsed
fails-Delivered = record { keyed = refl; wins = refl; returns = refl }

redelivery-ignored_example :
    middleware in_memory_store key_of ctx succeeds redelivered
    ≡ (put_result (ret (ignored none)) >> pure none) redelivered
unfolding result_successful erase ok is_failure lookup claim insert middleware in_memory_store
redelivery-ignored_example =
    redelivery-ignored key_of ctx succeeds succeeds arrived handled redelivered succeeds-Delivered
      refl refl refl refl (omega arith)

failure_frees_example :
    ((middleware in_memory_store key_of ctx fails arrived).0 ≡ ret (some (message "broken")))
    × ((claim "k" (middleware in_memory_store key_of ctx fails arrived).1.world).0 ≡ inl won)
failure_frees_example =
    failure_frees key_of ctx fails arrived (claimed key_of ctx arrived) (some (message "broken"))
      fails-Delivered refl
