-- ===== src/Registry/Choice.antt =====
-- What `lookup` chooses, against a description that does not follow its order of tests.
use benzene_go.Prelude.{
  String, sym, subst, inl, inr, Bool, false, Option, none, some, arith, eq_iff, Bool-cases,
  Option-cases, ◌+◌, ◌≡◌, if◌then◌else◌, ◌==◌, string_eq, nat_eq,
}
use benzene_go.Maps.{lookup, lookup-insert, lookup-insert_self}
use benzene_go.Topic.{Topic, topic_eq}
use benzene_go.Registry.{
  Registry, Selection, selected, unknown_topic, unknown_version, no_default, register,
  count_or_zero, select, default_version,
}
use benzene_go.Registry.Invariant.{IsValid, serving, serving-pos}

abbrev topic_at : String → String → Topic
topic_at id v = record { id = id; version = v }

module _ {H : Type 0} where
  -- The version that a message asks for: its own, or its topic's default.
  unfoldable pub wanted : Registry H → Topic → Option String
  wanted r t = if t.version == "" then default_version r t.id else some t.version

  -- The handler at a wanted version.
  unfoldable pub at_version : Registry H → Topic → Option String → Option H
  at_version r t none = none
  at_version r t (some v) = lookup (record { id = t.id; version = v }) r.handlers

  -- Why there is none.
  unfoldable pub reason : Registry H → Topic → Selection H
  reason r t =
      if serving t.id r.handlers == 0
      then unknown_topic
      else if t.version == ""
      then no_default
      else unknown_version

  abbrev pub chosen : Option H → Selection H → Selection H
  chosen none why = why
  chosen (some h) why = selected (some h)

  abbrev ChoosesWanted : Registry H → Topic → Type 0
  ChoosesWanted r t = select r t ≡ chosen (at_version r t (wanted r t)) (reason r t)

  -- A message that carries a version.
  versioned :
      (r : Registry H) (id v : String)
      → IsValid r
      → (v == "") ≡ false
      → ChoosesWanted r (topic_at id v)
  unfolding select wanted at_version reason
  versioned r id v valid named =
      ground (arith, valid.counted id, serving-pos (topic_at id v) r.handlers)

  -- A message that carries none.
  unversioned : (r : Registry H) (id : String) → IsValid r → ChoosesWanted r (topic_at id "")
  unfolding select wanted at_version reason default_version
  unversioned r id valid = elim (Option-cases (lookup id r.defaults)) [
    | inl undeclared ↦ ground (arith, valid.counted id, serving-pos (topic_at id "") r.handlers)
    | inr (v, e) ↦
        let (named, found) = valid.declared id v e in
        ground (arith, valid.counted id, serving-pos (topic_at id v) r.handlers)
  ]

  -- In a valid registry, `lookup` gives the handler registered at the version that a message wants
  -- (its own, or its topic's default version where it has none); where there is no such handler,
  -- it answers unknown topic if the id has no registration, no default if the message has no
  -- version, and unknown version otherwise. It never gives a nil handler.
  pub select-wanted :
      (r : Registry H) (t : Topic)
      → IsValid r
      → select r t ≡ chosen (at_version r t (wanted r t)) (reason r t)
  select-wanted r t valid = elim (Bool-cases (t.version == "")) [
    | inl bare ↦
        subst (λ v. ChoosesWanted r (topic_at t.id v)) (sym ((eq_iff t.version "").0 bare))
          (unversioned r t.id valid)
    | inr named ↦ versioned r t.id t.version valid named
  ]

  -- After a successful registration, `lookup` of the same topic gives the registered handler.
  pub select-register_self :
      (r r' : Registry H) (t : Topic) (h : H) (as_default : Bool)
      → register r t h as_default ≡ (none, r')
      → select r' t ≡ selected (some h)
  unfolding select register
  select-register_self r r' t h as_default e = ground (arith, lookup-insert_self t h r.handlers)

  -- Two registries that read alike at one topic id.
  record SameAt (r' r : Registry H) (id : String) : Type 0 where
    handlers : (v : String) → lookup (topic_at id v) r'.handlers ≡ lookup (topic_at id v) r.handlers
    versions : lookup id r'.versions ≡ lookup id r.versions
    defaults : lookup id r'.defaults ≡ lookup id r.defaults

  select-SameAt : (r' r : Registry H) (u : Topic) → SameAt r' r u.id → select r' u ≡ select r u
  unfolding select
  select-SameAt r' r u same = elim (Option-cases (lookup u.id r.defaults)) [
    | inl undeclared ↦ ground (arith, same.handlers u.version)
    | inr (v, e) ↦ ground (arith, same.handlers u.version, same.handlers v)
  ]

  SameAt-register :
      (r : Registry H) (t : Topic) (id : String) (h : H) (as_default : Bool)
      → (t.id == id) ≡ false
      → SameAt (register r t h as_default).1 r id
  unfolding register
  SameAt-register r t id h as_default ne = record {
    handlers = λ v. ground (arith, lookup-insert t (topic_at id v) h r.handlers);
    versions =
        ground
          (arith, lookup-insert t.id id (count_or_zero (lookup t.id r.versions) + 1) r.versions);
    defaults = ground (arith, lookup-insert t.id id t.version r.defaults);
  }

  -- A registration, successful or not, leaves the choice for every topic with another id as it
  -- was.
  pub select-register_other :
      (r : Registry H) (t u : Topic) (h : H) (as_default : Bool)
      → (t.id == u.id) ≡ false
      → select (register r t h as_default).1 u ≡ select r u
  select-register_other r t u h as_default ne =
      select-SameAt _ r u (SameAt-register r t u.id h as_default ne)
