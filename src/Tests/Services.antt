-- ===== src/Tests/Services.antt =====
-- A container with a singleton and a scoped service, whose factories count their runs.
use benzene_go.Prelude.{ℕ, String, refl, Bool, some, [], ◌+◌, ◌≡◌, ◌∷◌, string_eq, nat_eq}
use benzene_go.Flow.{ret, Go}
use benzene_go.Maps.{Map, lookup, insert, lookup-All}
use benzene_go.Scope.{Instances, Registration, singleton, scoped, try_get_service}
use benzene_go.Scope.Reuse.{Grows, IsFair, singleton_reuse}

abbrev counter : Bool → Go (Instances String ℕ ℕ) ℕ
counter in_scope s = (ret s.world, record s { world = s.world + 1 })

abbrev shared : Registration String ℕ ℕ
shared = record { lifetime = singleton; factory = counter }

abbrev per_scope : Registration String ℕ ℕ
per_scope = record { lifetime = scoped; factory = counter }

abbrev registrations : Map String (Registration String ℕ ℕ)
registrations = ("shared", shared) ∷ ("per_scope", per_scope) ∷ []

abbrev begin : Instances String ℕ ℕ
begin = record { singletons = []; in_scope = []; world = 3 }

abbrev with_shared : Instances String ℕ ℕ
with_shared = record { singletons = ("shared", 3) ∷ []; in_scope = []; world = 4 }

abbrev with_scoped : Instances String ℕ ℕ
with_scoped = record { singletons = []; in_scope = ("per_scope", 3) ∷ []; world = 4 }

same : (s : Instances String ℕ ℕ) → Grows s s
same s = record { singletons = λ k v h. h; in_scope = λ k v h. h }

singleton_reuse_example :
    try_get_service registrations "shared" with_shared ≡ (ret (some 3), with_shared)
unfolding lookup try_get_service insert
singleton_reuse_example =
    singleton_reuse registrations "shared" shared refl 3 begin with_shared with_shared refl refl
      (same with_shared)

counts : (b : Bool) (s : Instances String ℕ ℕ) → Grows s (counter b s).1
counts b s = record { singletons = λ k v h. h; in_scope = λ k v h. h }

fair : IsFair registrations
fair key reg b s h =
    lookup-All
      (λ (k : String) (r : Registration String ℕ ℕ).
        (c : Bool) (t : Instances String ℕ ℕ) → Grows t (r.factory c t).1)
      key registrations (counts, (counts, tt)) h b s
