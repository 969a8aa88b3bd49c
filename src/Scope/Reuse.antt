-- ===== src/Scope/Reuse.antt =====
-- An instance, once resolved, is the one that every later resolution gets.
use benzene_go.Prelude.{
  refl, subst, inl, inr, Bool, true, false, Option, some, arith, Eq, Option-cases, ◌≡◌, ◌∙◌,
  string_eq, nat_eq,
}
use benzene_go.Maps.{Map, lookup, lookup-insert, lookup-insert_self}
use benzene_go.Flow.{>>=-eq-ret, >>=-keeps, Flow, ret}
use benzene_go.Scope.{
  Lifetime, singleton, scoped, transient, Instances, Registration, keep_singleton, keep_scoped,
  typed_singleton, typed_scoped, resolve, try_get_service, present,
}

module _ {K V W : Type 0} ⦃e : Eq K⦄ where
  -- No stored instance is replaced or dropped.
  pub record Grows (s s' : Instances K V W) : Type 0 where
    pub singletons :
        (k : K) (v : V) → lookup k s.singletons ≡ some v → lookup k s'.singletons ≡ some v
    pub in_scope : (k : K) (v : V) → lookup k s.in_scope ≡ some v → lookup k s'.in_scope ≡ some v

  -- What a factory may do: resolve services and change the world, but not the stores directly.
  abbrev pub IsFair : Map K (Registration K V W) → Type 0
  IsFair registrations =
      (key : K) (reg : Registration K V W) (b : Bool) (s : Instances K V W)
      → lookup key registrations ≡ some reg
      → Grows s (reg.factory b s).1

  Grows-refl : (s : Instances K V W) → Grows s s
  Grows-refl s = record { singletons = λ k v h. h; in_scope = λ k v h. h }

  Grows-trans : {s t u : Instances K V W} → Grows s t → Grows t u → Grows s u
  Grows-trans a b = record {
    singletons = λ k v h. b.singletons k v (a.singletons k v h);
    in_scope = λ k v h. b.in_scope k v (a.in_scope k v h);
  }

  keep_singleton-Grows :
      (key : K) (v : V) (s : Instances K V W) → Grows s (keep_singleton key v s).1
  unfolding keep_singleton
  keep_singleton-Grows key v s = record {
    singletons = λ k w h. ground (arith, lookup-insert key k v s.singletons, e.equal_iff key k);
    in_scope = λ k w h. ground arith;
  }

  keep_scoped-Grows : (key : K) (v : V) (s : Instances K V W) → Grows s (keep_scoped key v s).1
  unfolding keep_scoped
  keep_scoped-Grows key v s = record {
    singletons = λ k w h. ground arith;
    in_scope = λ k w h. ground (arith, lookup-insert key k v s.in_scope, e.equal_iff key k);
  }

  -- What `typed_singleton` returns is what is stored when it returns.
  keep_singleton-stored :
      (key : K) (v w : V) (s s' : Instances K V W)
      → keep_singleton key v s ≡ (ret w, s')
      → lookup key s'.singletons ≡ some w
  unfolding keep_singleton
  keep_singleton-stored key v w s s' h = ground (arith, lookup-insert_self key v s.singletons)

  keep_scoped-stored :
      (key : K) (v w : V) (s s' : Instances K V W)
      → keep_scoped key v s ≡ (ret w, s')
      → lookup key s'.in_scope ≡ some w
  unfolding keep_scoped
  keep_scoped-stored key v w s s' h = ground (arith, lookup-insert_self key v s.in_scope)

  typed_singleton-stored :
      (key : K) (reg : Registration K V W) (v : V) (s s' : Instances K V W)
      → typed_singleton key reg s ≡ (ret v, s')
      → lookup key s'.singletons ≡ some v
  unfolding typed_singleton
  typed_singleton-stored key reg v s s' h = elim (Option-cases (lookup key s.singletons)) [
    | inl fresh ↦
        let (w, u, ran, kept) =
          >>=-eq-ret (reg.factory false) (keep_singleton key) s v s'
            (rw (fresh, typed_singleton) at h) in
        keep_singleton-stored key w v u s' kept
    | inr (w, old) ↦
        let same : ◌≡◌ {A = Flow V × Instances K V W} (ret w, s) (ret v, s') =
          rw (old, typed_singleton) at h in
        ground arith
  ]

  typed_scoped-stored :
      (key : K) (reg : Registration K V W) (v : V) (s s' : Instances K V W)
      → typed_scoped key reg s ≡ (ret v, s')
      → lookup key s'.in_scope ≡ some v
  unfolding typed_scoped
  typed_scoped-stored key reg v s s' h = elim (Option-cases (lookup key s.in_scope)) [
    | inl fresh ↦
        let (w, u, ran, kept) =
          >>=-eq-ret (reg.factory true) (keep_scoped key) s v s' (rw (fresh, typed_scoped) at h) in
        keep_scoped-stored key w v u s' kept
    | inr (w, old) ↦
        let same : ◌≡◌ {A = Flow V × Instances K V W} (ret w, s) (ret v, s') =
          rw (old, typed_scoped) at h in
        ground arith
  ]

  module _ (registrations : Map K (Registration K V W)) (key : K) (reg : Registration K V W)
      (registered : lookup key registrations ≡ some reg) where
    unwrap :
        (w v : V) (u s' : Instances K V W)
        → ◌≡◌ {A = Flow (Option V) × Instances K V W} (ret (some w), u) (ret (some v), s')
        → ◌≡◌ {A = Flow V × Instances K V W} (ret w, u) (ret v, s')
    unwrap w v u s' h = ground arith

    resolved_by :
        (v : V) (s s' : Instances K V W)
        → try_get_service registrations key s ≡ (ret (some v), s')
        → resolve key reg reg.lifetime s ≡ (ret v, s')
    unfolding try_get_service present
    resolved_by v s s' h =
        let (w, u, ran, done) =
          >>=-eq-ret (resolve key reg reg.lifetime) _ s (some v) s'
            (rw (registered, try_get_service) at h) in
        ran ∙ unwrap w v u s' done

    -- Where a resolution of a registered singleton returned an instance, every later resolution of
    -- its key, in any state that kept the instances stored then, returns that same instance and
    -- changes nothing.
    pub singleton_reuse :
        (v : V) (s s' t : Instances K V W)
        → reg.lifetime ≡ singleton
        → try_get_service registrations key s ≡ (ret (some v), s')
        → Grows s' t
        → try_get_service registrations key t ≡ (ret (some v), t)
    unfolding try_get_service present typed_singleton resolve
    singleton_reuse v s s' t single first later =
        let stored : lookup key s'.singletons ≡ some v =
          typed_singleton-stored key reg v s s'
            (subst (λ l. resolve key reg l s ≡ (ret v, s')) single (resolved_by v s s' first)) in
        rw (registered, try_get_service)
          (rw (single, resolve) (rw (later.singletons key v stored, typed_singleton) refl))

    -- Where a resolution of a registered scoped service returned an instance, every later
    -- resolution of its key in that scope, in any state that kept the instances stored then,
    -- returns that same instance and changes nothing.
    pub scoped_reuse :
        (v : V) (s s' t : Instances K V W)
        → reg.lifetime ≡ scoped
        → try_get_service registrations key s ≡ (ret (some v), s')
        → Grows s' t
        → try_get_service registrations key t ≡ (ret (some v), t)
    unfolding try_get_service present typed_scoped resolve
    scoped_reuse v s s' t per_scope first later =
        let stored : lookup key s'.in_scope ≡ some v =
          typed_scoped-stored key reg v s s'
            (subst (λ l. resolve key reg l s ≡ (ret v, s')) per_scope (resolved_by v s s' first)) in
        rw (registered, try_get_service)
          (rw (per_scope, resolve) (rw (later.in_scope key v stored, typed_scoped) refl))

  -- Resolving a service keeps every stored instance, if the factories do.
  module _ (registrations : Map K (Registration K V W)) (fair : IsFair registrations) where
    resolve-Grows :
        (key : K) (reg : Registration K V W) (l : Lifetime) (s : Instances K V W)
        → lookup key registrations ≡ some reg
        → Grows s (resolve key reg l s).1
    unfolding resolve typed_singleton typed_scoped
    resolve-Grows key reg singleton s h = elim (Option-cases (lookup key s.singletons)) [
      | inl fresh ↦
          rw (fresh, typed_singleton)
            (>>=-keeps (Grows s) (reg.factory false) (keep_singleton key) s (fair key reg false s h)
              (λ a u g. Grows-trans g (keep_singleton-Grows key a u)))
      | inr (w, old) ↦ rw (old, typed_singleton) (Grows-refl s)
    ]
    resolve-Grows key reg scoped s h = elim (Option-cases (lookup key s.in_scope)) [
      | inl fresh ↦
          rw (fresh, typed_scoped)
            (>>=-keeps (Grows s) (reg.factory true) (keep_scoped key) s (fair key reg true s h)
              (λ a u g. Grows-trans g (keep_scoped-Grows key a u)))
      | inr (w, old) ↦ rw (old, typed_scoped) (Grows-refl s)
    ]
    resolve-Grows key reg transient s h = fair key reg true s h

    -- Where no factory replaces or drops a stored instance, resolving a service, whether it
    -- returns or panics, replaces and drops none.
    pub try_get_service-Grows :
        (key : K) (s : Instances K V W) → Grows s (try_get_service registrations key s).1
    unfolding try_get_service present
    try_get_service-Grows key s = elim (Option-cases (lookup key registrations)) [
      | inl missing ↦ rw (missing, try_get_service) (Grows-refl s)
      | inr (reg, h) ↦
          rw (h, try_get_service)
            (>>=-keeps (Grows s) (resolve key reg reg.lifetime) _ s
              (resolve-Grows key reg reg.lifetime s h) (λ a u g. g))
    ]
