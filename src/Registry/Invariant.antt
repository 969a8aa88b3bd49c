-- ===== src/Registry/Invariant.antt =====
-- What `Register` keeps: the counts are exact, and every declared default is a registered version.
use benzene_go.Prelude.{
  ℕ, String, refl, inl, inr, Bool, true, false, not, some, [], arith, eq_iff, Bool-cases, is_some,
  ◌+◌, ◌<◌, ◌≡◌, ◌&&◌, ◌∷◌, if◌then◌else◌, ◌==◌, string_eq, nat_eq,
}
use benzene_go.Maps.{Map, lookup, insert, lookup-insert}
use benzene_go.Topic.{Topic, topic_eq, topic_beq_iff}
use benzene_go.Registry.{Registry, new_registry, count_or_zero, add_handler, register, new_registry}

module _ {H : Type 0} where
  -- How many registrations an id has.
  pub serving : String → Map Topic H → ℕ
  serving id [] = 0
  serving id ((t, h) ∷ m) = (if t.id == id then 1 else 0) + serving id m

  serving-insert :
      (id : String) (t : Topic) (h : H) (m : Map Topic H)
      → serving id (insert t h m)
        ≡ serving id m + (if is_some (lookup t m) then 0 else if t.id == id then 1 else 0)
  unfolding serving insert lookup
  serving-insert id t h [] = ground arith
  serving-insert id t h ((u, k) ∷ m) = ground (arith, serving-insert id t h m, topic_beq_iff u t)

  pub serving-pos : (t : Topic) (m : Map Topic H) → is_some (lookup t m) ≡ true → 0 < serving t.id m
  unfolding lookup serving
  serving-pos t [] e = absurd (cc e)
  serving-pos t ((u, h) ∷ m) e =
      ground (arith, serving-pos t m, topic_beq_iff u t, eq_iff u.id t.id)

  pub record IsValid (r : Registry H) : Type 0 where
    pub counted : (id : String) → count_or_zero (lookup id r.versions) ≡ serving id r.handlers
    pub declared :
        (id v : String)
        → lookup id r.defaults ≡ some v
        → ((v == "") ≡ false)
          × (is_some (lookup (record { id = id; version = v }) r.handlers) ≡ true)

  pub new_registry-IsValid : IsValid new_registry
  unfolding new_registry lookup serving
  new_registry-IsValid = record { counted = λ id. refl; declared = λ id v e. absurd (cc e) }

  module _ (r : Registry H) (t : Topic) (h : H) (declare : Bool) where
    add_handler-counted :
        IsValid r
        → is_some (lookup t r.handlers) ≡ false
        → (id : String)
        → count_or_zero (lookup id (add_handler r t h declare).versions)
          ≡ serving id (add_handler r t h declare).handlers
    unfolding add_handler
    add_handler-counted valid new id =
        rw (lookup-insert, serving-insert, new)
          (ground (arith, valid.counted id, valid.counted t.id, eq_iff t.id id))

    -- A registered topic stays registered, and the new one is.
    is_some-insert :
        (u : Topic)
        → is_some (lookup u r.handlers) ≡ true
        → is_some (lookup u (insert t h r.handlers)) ≡ true
    is_some-insert u e = rw lookup-insert (ground arith)

    add_handler-declared :
        IsValid r
        → (declare ≡ true → (t.version == "") ≡ false)
        → (id v : String) → lookup id (add_handler r t h declare).defaults ≡ some v
        → ((v == "") ≡ false)
          × (is_some (lookup (record { id = id; version = v }) (add_handler r t h declare).handlers)
              ≡ true)
    unfolding add_handler
    add_handler-declared valid versioned id v e = ground (
      arith,
      lookup-insert t.id id t.version r.defaults,
      lookup-insert t (record { id = id; version = v }) h r.handlers,
      valid.declared id v,
      eq_iff t.id id,
      eq_iff t.version v,
    )

  -- Whether it succeeds or not, `Register` keeps the registry valid.
  pub register-IsValid :
      (r : Registry H) (t : Topic) (h : H) (as_default : Bool)
      → IsValid r
      → IsValid (register r t h as_default).1
  unfolding register
  register-IsValid r t h as_default valid = elim (Bool-cases (is_some (lookup t r.handlers))) [
    | inl old ↦ rw old valid
    | inr new ↦
        elim (Bool-cases
          (as_default && not (t.version == "") && is_some (lookup t.id r.defaults))) [
            | inl second ↦ rw (new, second) valid
            | inr first ↦
                rw (new, first)
                  (record {
                    counted =
                        add_handler-counted r t h (as_default && not (t.version == "")) valid new;
                    declared =
                        add_handler-declared r t h (as_default && not (t.version == "")) valid
                          (λ e. ground arith);
                  })
          ]
  ]

  -- The ways to a registry: any sequence of registrations from the empty one.
  pub data Reachable : Registry H → Type 0 where
    empty : Reachable new_registry
    after :
        {r : Registry H} (t : Topic) (h : H) (as_default : Bool)
        → Reachable r
        → Reachable (register r t h as_default).1

  -- Every registry that registrations, successful or not, lead to from the empty one is valid: the
  -- number kept for each topic id is the number of its registered handlers, and every declared
  -- default is a version that is not empty and has a handler.
  pub Reachable-IsValid : {r : Registry H} → Reachable r → IsValid r
  Reachable-IsValid empty = new_registry-IsValid
  Reachable-IsValid (after t h as_default w) =
      register-IsValid _ t h as_default (Reachable-IsValid w)
