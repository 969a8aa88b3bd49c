-- ===== src/Registry/Defaults.antt =====
-- The start-up check for topics without a default, against what a message without a version meets.
use benzene_go.Prelude.{
  ℕ, String, refl, sym, ap, inl, inr, Bool, true, false, not, some, List, [], arith, eq_iff,
  Option-cases, is_some, contains, ◌+◌, ◌<◌, ◌≡◌, ◌∙◌, ◌&&◌, ◌∷◌, ◌==◌, string_eq, nat_eq,
}
use benzene_go.Maps.{Map, lookup, lookup-insert}
use benzene_go.Topic.{Topic, new_topic, topic_eq}
use benzene_go.Registry.{
  Registry, Selection, no_default, new_registry, register, add_handler, count_or_zero, select,
  default_handler, default_version, without_default, topics_without_default,
}
use benzene_go.Registry.Invariant.{Reachable, empty, after}

module _ {H : Type 0} where
  abbrev pub is_no_default : Selection H → Bool
  is_no_default no_default = true
  is_no_default _ = false

  contains-without_default :
      (r : Registry H) (id : String) (versions : Map String ℕ)
      → contains (without_default r versions) id
        ≡ (is_some (lookup id versions) && not (is_some (default_version r id)))
  unfolding without_default lookup
  contains-without_default r id [] = refl
  contains-without_default r id ((j, n) ∷ versions) =
      ground (arith, contains-without_default r id versions, eq_iff j id, eq_iff id j)

  -- No count of a registered id is zero.
  Counts : Registry H → Type 0
  Counts r = (id : String) (n : ℕ) → lookup id r.versions ≡ some n → 0 < n

  register-Counts :
      (r : Registry H) (t : Topic) (h : H) (as_default : Bool)
      → Counts r
      → Counts (register r t h as_default).1
  unfolding Counts register add_handler
  register-Counts r t h as_default counts id n = ground (
    arith,
    counts id n,
    lookup-insert t.id id (count_or_zero (lookup t.id r.versions) + 1) r.versions,
  )

  Reachable-Counts : {r : Registry H} → Reachable r → Counts r
  unfolding Counts new_registry lookup
  Reachable-Counts empty = λ id n e. absurd (cc e)
  Reachable-Counts (after t h as_default w) = register-Counts _ t h as_default (Reachable-Counts w)

  select-is_no_default :
      (r : Registry H) (id : String)
      → is_no_default (select r (new_topic id))
        ≡ (not (count_or_zero (lookup id r.versions) == 0) && not (is_some (default_version r id)))
  unfolding select default_version new_topic default_handler
  select-is_no_default r id = ground arith

  counted-is_some :
      (r : Registry H) (id : String)
      → Counts r
      → is_some (lookup id r.versions) ≡ not (count_or_zero (lookup id r.versions) == 0)
  unfolding Counts
  counted-is_some r id counts = elim (Option-cases (lookup id r.versions)) [
    | inl absent ↦ rw absent refl
    | inr (n, e) ↦ rw e (ground (arith, counts id n e))
  ]

  -- In a registry that registrations lead to from the empty one, and for a sort that keeps the
  -- members of a list: a topic id is among `TopicsWithoutDefault` exactly when `lookup` of that id
  -- without a version answers no default.
  pub topics_without_default-no_default :
      (sort : List String → List String) (r : Registry H) (id : String)
      → ((ids : List String) (x : String) → contains (sort ids) x ≡ contains ids x)
      → Reachable r
      → contains (topics_without_default sort r) id ≡ is_no_default (select r (new_topic id))
  unfolding topics_without_default
  topics_without_default-no_default sort r id keeps reached =
      keeps (without_default r r.versions) id
      ∙ contains-without_default r id r.versions
      ∙ ap (λ b. b && not (is_some (default_version r id)))
          (counted-is_some r id (Reachable-Counts reached))
      ∙ sym (select-is_no_default r id)
