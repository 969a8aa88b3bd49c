-- ===== src/Topic.antt =====
-- topic.go: a topic is an id and a version, and a map key.
use Prim.Native.String
use benzene_go.Prelude.{
  String, Bool, true, arith, eq_iff, Eq, ◌≡◌, ◌↔◌, ◌&&◌, if◌then◌else◌, ◌==◌, string_eq, nat_eq,
}

pub record Topic : Type 0 where
  pub id : String
  pub version : String

unfoldable pub new_topic : String → Topic
new_topic id = record { id = id; version = "" }

unfoldable pub with_version : Topic → String → Topic
with_version t version = record t { version = version }

-- `String()`: the id, and "@version" behind it where there is one.
unfoldable pub to_string : Topic → String
to_string t = if t.version == "" then t.id else String.◌++◌ (String.◌++◌ t.id "@") t.version

abbrev pub topic_beq : Topic → Topic → Bool
topic_beq t u = t.id == u.id && t.version == u.version

pub topic_beq_iff : (t u : Topic) → (topic_beq t u ≡ true) ↔ (t ≡ u)
topic_beq_iff t u = ground (arith, eq_iff t.id u.id, eq_iff t.version u.version)

instance abbrev pub topic_eq : Eq Topic
topic_eq = record { equal = topic_beq; equal_iff = topic_beq_iff }
