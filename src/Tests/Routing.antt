-- ===== src/Tests/Routing.antt =====
-- The router and the pipeline on a handler that panics, and on a topic that nothing serves.
use benzene_go.Prelude.{ℕ, refl, false, Option, none, some, ◌+◌, ◌≡◌, ◌==◌, string_eq, nat_eq}
use benzene_go.Flow.{ret, panic, pure}
use benzene_go.Topic.{Topic, new_topic, with_version}
use benzene_go.Result.{ResultInfo}
use benzene_go.Registry.{Registry, new_registry, register, default_version}
use benzene_go.Registry.Invariant.{serving, Reachable-IsValid, after, empty}
use benzene_go.Registry.Choice.{at_version, wanted}
use benzene_go.Maps.{lookup, insert}
use benzene_go.Tests.Registrations.{orders_v1}
use benzene_go.Pipeline.{Ctx, State, Next, Middleware, new_invocation}
use benzene_go.Router.{
  Strings, ErasedHandler, dispatch, call, router, resolve_topic, resolve_version,
}
use benzene_go.Router.Laws.{
  Settles, dispatch-Settles, routed, router-next, router-IsUnserved, IsUnserved,
}

abbrev Base : Type 0
Base = Unit {0}

abbrev lib : Strings
lib = record { equal_fold = λ a b. a == b; quote = λ a. a }

abbrev pub ctx : Ctx Base
ctx = record { base = tt; scope = none; invocation = false }

abbrev orders : Topic
orders = record { id = "orders:create"; version = "" }

abbrev pub begun : State ℕ ℕ
begun = record { ic = new_invocation orders none (some 7) none; world = 0 }

abbrev panicking : ErasedHandler Base ℕ ℕ
panicking c request s = (panic "boom", record s { world = 1 })

abbrev registry : Registry (ErasedHandler Base ℕ ℕ)
registry = (register new_registry orders panicking false).1

abbrev counting : Next Base ℕ ℕ
counting c s = (ret none, record s { world = s.world + 10 })

dispatch-Settles_example :
    (result : Option (ResultInfo ℕ)) × (dispatch ctx (some panicking) (some 7) begun
      ≡ (ret result, (call (some panicking) ctx (some 7) begun).1))
    × Settles (call (some panicking) ctx (some 7) begun).0 result
dispatch-Settles_example = dispatch-Settles ctx (some panicking) (some 7) begun

router-next_example :
    router lib registry "" ctx counting begun ≡ counting ctx (routed lib registry "" ctx begun)
router-next_example = router-next lib registry "" ctx counting begun

abbrev versioned_only : Registry (ErasedHandler Base ℕ ℕ)
versioned_only = (register new_registry orders_v1 panicking false).1

router-IsUnserved_example :
    IsUnserved lib versioned_only "" ctx
      (serving begun.ic.topic.id versioned_only.handlers)
      begun.ic.topic.id
      (routed lib versioned_only "" ctx begun).ic.result
    × ((routed lib versioned_only "" ctx begun).world ≡ begun.world)
unfolding register new_registry new_invocation at_version wanted default_version new_topic
    resolve_topic resolve_version lookup insert with_version
router-IsUnserved_example =
    router-IsUnserved lib versioned_only "" ctx begun
      (Reachable-IsValid (after orders_v1 panicking false empty)) refl refl

abbrev passing : Middleware Base ℕ ℕ
passing c next s = next c (record s { world = s.world + 1 })

abbrev ending : Middleware Base ℕ ℕ
ending c next = pure none
