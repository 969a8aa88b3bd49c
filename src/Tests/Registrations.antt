-- ===== src/Tests/Registrations.antt =====
-- A registry with two versions of a topic, one of them the default.
use benzene_go.Prelude.{ℕ, refl, true, false, contains, ◌≡◌, string_eq, nat_eq}
use benzene_go.Topic.{Topic, new_topic}
use benzene_go.Registry.{topics_without_default, Registry, new_registry, register, select}
use benzene_go.Registry.Invariant.{IsValid, Reachable, empty, after, Reachable-IsValid}
use benzene_go.Registry.Defaults.{is_no_default, topics_without_default-no_default}
use benzene_go.Registry.Choice.{wanted, at_version, reason, chosen, select-wanted}

abbrev pub orders_v1 : Topic
orders_v1 = record { id = "orders:create"; version = "v1" }

abbrev pub orders_v2 : Topic
orders_v2 = record { id = "orders:create"; version = "v2" }

abbrev orders : Topic
orders = record { id = "orders:create"; version = "" }

abbrev payments : Topic
payments = record { id = "payments:take"; version = "" }

abbrev first_version : Registry ℕ
first_version = (register new_registry orders_v1 1 false).1

abbrev both_versions : Registry ℕ
both_versions = (register first_version orders_v2 2 true).1

both_versions-Reachable : Reachable both_versions
both_versions-Reachable = after orders_v2 2 true (after orders_v1 1 false empty)

Reachable-IsValid_example : IsValid both_versions
Reachable-IsValid_example = Reachable-IsValid both_versions-Reachable

select-wanted_example :
    select both_versions orders
    ≡ chosen
        (at_version both_versions orders (wanted both_versions orders))
        (reason both_versions orders)
select-wanted_example =
    select-wanted both_versions orders (Reachable-IsValid both_versions-Reachable)

topics_without_default-no_default_example :
    contains (topics_without_default (λ ids. ids) first_version) "orders:create"
    ≡ is_no_default (select first_version (new_topic "orders:create"))
topics_without_default-no_default_example =
    topics_without_default-no_default (λ ids. ids) first_version "orders:create" (λ ids x. refl)
      (after orders_v1 1 false empty)
