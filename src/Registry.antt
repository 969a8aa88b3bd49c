-- ===== src/Registry.antt =====
-- registry.go: the handlers by topic, the number of registrations by id, and the declared defaults.
-- `H` is the type of what is stored for a topic (the erased handler and its two reflected types).
-- A nil map and an empty one read alike, so the lazy allocation in `Register` leaves no trace.
pub mod Invariant
pub mod Choice
pub mod Defaults
use benzene_go.Prelude.{
  ℕ, String, Bool, not, Option, none, some, List, [], is_some, ◌+◌, ◌&&◌, ◌∷◌, if◌then◌else◌, ◌==◌,
  string_eq, nat_eq,
}
use benzene_go.Maps.{Map, lookup, insert}
use benzene_go.Topic.{Topic, new_topic, with_version, topic_eq}

pub record Registry {ℓ} (H : Type ℓ) : Type ℓ where
  pub handlers : Map Topic H
  pub versions : Map String ℕ
  pub defaults : Map String String

unfoldable pub new_registry {ℓ} : {H : Type ℓ} → Registry H
new_registry = record { handlers = []; versions = []; defaults = [] }

pub data RegisterError : Type 0 where
  already_registered : Topic → RegisterError
  already_default : Topic → String → RegisterError

pub data Selection {ℓ} (H : Type ℓ) : Type ℓ where
  -- `none` is a nil function.
  selected : Option H → Selection H
  unknown_topic unknown_version no_default : Selection H

-- v := m[k], with zero for a missing key
abbrev pub count_or_zero : Option ℕ → ℕ
count_or_zero none = 0
count_or_zero (some n) = n

module _ {ℓ} {H : Type ℓ} where
  -- the three writes of `Register`
  add_handler : Registry H → Topic → H → Bool → Registry H
  add_handler r topic handler declare_default = record {
    handlers = insert topic handler r.handlers;
    versions = insert topic.id (count_or_zero (lookup topic.id r.versions) + 1) r.versions;
    defaults = if declare_default then insert topic.id topic.version r.defaults else r.defaults;
  }

  -- `Register`; `as_default` is whether the option `AsDefault` is among the options.
  unfoldable pub register : Registry H → Topic → H → Bool → Option RegisterError × Registry H
  unfolding add_handler
  register r topic handler as_default =
      let declare_default = as_default && not (topic.version == "") in
      if is_some (lookup topic r.handlers)
      then (some (already_registered topic), r)
      else if declare_default && is_some (lookup topic.id r.defaults)
      then (some (already_default topic topic.version), r)
      else (none, add_handler r topic handler declare_default)

  -- The last two steps of `lookup`: a declared default that is not registered is a nil handler.
  default_handler : Registry H → Topic → Option String → Selection H
  default_handler r topic none = no_default
  default_handler r topic (some version) = selected (lookup (with_version topic version) r.handlers)

  -- `lookup`
  unfoldable pub select : Registry H → Topic → Selection H
  unfolding default_handler with_version
  select r topic = elim (lookup topic r.handlers) [
    | some handler ↦ selected (some handler)
    | none ↦
        if count_or_zero (lookup topic.id r.versions) == 0
        then unknown_topic
        else if not (topic.version == "")
        then unknown_version
        else default_handler r topic (lookup topic.id r.defaults)
  ]

  -- `DefaultVersion`
  unfoldable pub default_version : Registry H → String → Option String
  unfolding new_topic
  default_version r id = elim (lookup (new_topic id) r.handlers) [
    | some handler ↦ some ""
    | none ↦ lookup id r.defaults
  ]

  -- `Has`
  pub has : Registry H → Topic → Bool
  has r topic = is_some (lookup topic r.handlers)

  -- The loop of `TopicsWithoutDefault`, over what is left of the counts.
  unfoldable pub without_default : Registry H → Map String ℕ → List String
  unfolding default_version
  without_default r [] = []
  without_default r ((id, n) ∷ versions) =
      let rest = without_default r versions in
      if is_some (default_version r id) then rest else id ∷ rest

  -- `TopicsWithoutDefault`; `sort` is `sort.Strings`.
  unfoldable pub topics_without_default : (List String → List String) → Registry H → List String
  unfolding without_default
  topics_without_default sort r = sort (without_default r r.versions)
