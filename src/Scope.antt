-- ===== src/Scope.antt =====
-- scope.go: registrations by key, and the resolution of a service in one scope. A factory is code
-- that may itself resolve services, so it runs on the same state. The registrations are made at
-- start-up and do not change while services are resolved; a mutex is held for single steps only, so
-- between two of them another goroutine's effect is part of what the factory's call does.
pub mod Reuse
use benzene_go.Prelude.{
  Bool, true, false, Option, none, some, Eq, is_some, if◌then◌else◌, string_eq, nat_eq,
}
use benzene_go.Maps.{Map, lookup, insert}
use benzene_go.Flow.{Go, Flow, ret, panic, pure, lift, gets, modify, ◌>>=◌, ◌>>◌}

pub data Lifetime : Type 0 where
  singleton scoped transient : Lifetime

-- The instances of the container, and those of the scope.
pub record Instances (K V W : Type 0) : Type 0 where
  pub singletons : Map K V
  pub in_scope : Map K V
  pub world : W

-- A factory is told whether it is given a scope (`factory(s)`) or nil (`factory(nil)`).
pub record Registration (K V W : Type 0) : Type 0 where
  pub lifetime : Lifetime
  pub factory : Bool → Go (Instances K V W) V

module _ {K V W : Type 0} ⦃e : Eq K⦄ where
  -- `add`
  unfoldable pub add :
      K → Registration K V W → Map K (Registration K V W) → Map K (Registration K V W)
  add key reg registrations = insert key reg registrations

  -- `tryAdd`
  unfoldable pub try_add :
      K → Registration K V W → Map K (Registration K V W) → Map K (Registration K V W)
  try_add key reg registrations =
      if is_some (lookup key registrations) then registrations else insert key reg registrations

  abbrev store_singleton : K → V → Instances K V W → Instances K V W
  store_singleton key v s = record s { singletons = insert key v s.singletons }

  abbrev store_scoped : K → V → Instances K V W → Instances K V W
  store_scoped key v s = record s { in_scope = insert key v s.in_scope }

  -- The second half of the double check: what was stored meanwhile wins.
  keep_singleton : K → V → Go (Instances K V W) V
  keep_singleton key v s = elim (lookup key s.singletons) [
    | some existing ↦ (ret existing, s)
    | none ↦ (ret v, store_singleton key v s)
  ]

  keep_scoped : K → V → Go (Instances K V W) V
  keep_scoped key v s = elim (lookup key s.in_scope) [
    | some existing ↦ (ret existing, s)
    | none ↦ (ret v, store_scoped key v s)
  ]

  -- `typedSingleton` and `typedScoped`
  unfoldable pub typed_singleton : K → Registration K V W → Go (Instances K V W) V
  unfolding keep_singleton
  typed_singleton key reg s = elim (lookup key s.singletons) [
    | some existing ↦ (ret existing, s)
    | none ↦ (reg.factory false >>= keep_singleton key) s
  ]

  unfoldable pub typed_scoped : K → Registration K V W → Go (Instances K V W) V
  unfolding keep_scoped
  typed_scoped key reg s = elim (lookup key s.in_scope) [
    | some existing ↦ (ret existing, s)
    | none ↦ (reg.factory true >>= keep_scoped key) s
  ]

  resolve : K → Registration K V W → Lifetime → Go (Instances K V W) V
  resolve key reg singleton = typed_singleton key reg
  resolve key reg scoped = typed_scoped key reg
  resolve key reg transient = reg.factory true

  present : Go (Instances K V W) V → Go (Instances K V W) (Option V)
  present m = do v ← m; pure (some v)

  -- `TryGetService`
  unfoldable pub try_get_service : Map K (Registration K V W) → K → Go (Instances K V W) (Option V)
  unfolding resolve present typed_singleton typed_scoped
  try_get_service registrations key = elim (lookup key registrations) [
    | none ↦ pure none
    | some reg ↦ present (resolve key reg reg.lifetime)
  ]

  required : Option V → Go (Instances K V W) V
  required none = lift (panic "benzene: no service registered for key")
  required (some v) = pure v

  -- `GetService`
  unfoldable pub get_service : Map K (Registration K V W) → K → Go (Instances K V W) V
  unfolding try_get_service required
  get_service registrations key = do found ← try_get_service registrations key; required found
