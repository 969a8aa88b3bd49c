-- ===== src/Cache.antt =====
-- cache/cache.go and cache/store.go: a value is loaded once and served from the store until it
-- expires. A time to live of 0 or less is 0. encoding/json and the source of the value are
-- parameters.
pub mod Hits
use benzene_go.Prelude.{
  ℕ, String, Bool, not, Option, none, some, ltb, leb, ◌+◌, ◌&&◌, if◌then◌else◌, ◌==◌, string_eq,
  nat_eq,
}
use benzene_go.Maps.{Map, lookup, insert, delete}
use benzene_go.Flow.{Go, Err, Flow, ret, pure, gets, modify, ◌>>=◌, ◌>>◌}

-- `cacheEntry`; 0 is no expiry.
pub record CacheEntry : Type 0 where
  pub value : String
  pub expires_at : ℕ

abbrev pub Entries : Type 0
Entries = Map String CacheEntry

abbrev pub is_expired : ℕ → CacheEntry → Bool
is_expired now entry = not (entry.expires_at == 0) && leb entry.expires_at now

-- `Get`; `none` is not found
unfoldable pub get_entry : ℕ → String → Entries → Option String × Entries
get_entry now key entries = elim (lookup key entries) [
  | none ↦ (none, entries)
  | some entry ↦
      if is_expired now entry then (none, delete key entries) else (some entry.value, entries)
]

-- `Set` and `Delete`
unfoldable pub set_entry : ℕ → String → String → ℕ → Entries → Entries
set_entry now key value ttl entries =
    insert key (record { value = value; expires_at = if ltb 0 ttl then now + ttl else 0 }) entries

unfoldable pub delete_entry : String → Entries → Entries
delete_entry key entries = delete key entries

-- A `Store`: each operation with its Go error.
pub record CacheStore (S : Type 0) : Type 0 where
  pub get : String → Go S (Option String × Option Err)
  pub set : String → String → ℕ → Go S (Option Err)

module _ {S T : Type 0} (marshal : T → Option String) (unmarshal : String → Option T)
    (store : CacheStore S) (key : String) (ttl : ℕ) where
  abbrev pub cached : Option String × Option Err → Option T
  cached (some raw, none) = unmarshal raw
  cached _ = none

  -- What a loaded value does to the store.
  unfoldable pub remember : T → Option Err → Go S (T × Option Err)
  remember value (some err) = pure (value, some err)
  remember value none = elim (marshal value) [
    | none ↦ pure (value, none)
    | some raw ↦ do store.set key raw ttl; pure (value, none)
  ]

  -- What follows the read of the store.
  unfoldable pub serve : Go S (T × Option Err) → Option T → Go S (T × Option Err)
  unfolding remember
  serve load (some value) = pure (value, none)
  serve load none = do loaded ← load; remember loaded.0 loaded.1

  -- `GetOrLoad`
  unfoldable pub get_or_load : Go S (T × Option Err) → Go S (T × Option Err)
  unfolding serve
  get_or_load load = do found ← store.get key; serve load (cached found)

-- `InMemoryStore` beside the world that the loads run in, and a clock.
pub record CacheMemory (W : Type 0) : Type 0 where
  pub entries : Entries
  pub world : W

module _ {W : Type 0} (clock : W → ℕ) where
  unfoldable pub in_memory : CacheStore (CacheMemory W)
  unfolding get_entry set_entry
  in_memory = record {
    get = λ key s. (
      ret ((get_entry (clock s.world) key s.entries).0, none),
      record s { entries = (get_entry (clock s.world) key s.entries).1 },
    );
    set = λ key value ttl s.
        (ret none, record s { entries = set_entry (clock s.world) key value ttl s.entries });
  }
