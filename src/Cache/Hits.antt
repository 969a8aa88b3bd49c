-- ===== src/Cache/Hits.antt =====
-- When the cache answers in place of the source.
use benzene_go.Prelude.{
  ℕ, String, refl, sym, ap, inl, inr, Bool, true, false, Option, none, some, arith, ltb,
  Option-cases, ◌+◌, ◌≡◌, ◌∙◌, ◌||◌, if◌then◌else◌, ◌==◌, string_eq, nat_eq,
}
use benzene_go.Maps.{lookup, insert, lookup-insert, lookup-insert_self}
use benzene_go.Flow.{Go, Err, ret}
use benzene_go.Cache.{
  CacheEntry, Entries, is_expired, get_entry, set_entry, get_or_load, remember, CacheMemory,
  in_memory,
}

-- What a read finds where an entry may stand.
abbrev found_in : ℕ → Option CacheEntry → Option String
found_in now none = none
found_in now (some entry) = if is_expired now entry then none else some entry.value

get_entry-found_in :
    (now : ℕ) (key : String) (entries : Entries)
    → (get_entry now key entries).0 ≡ found_in now (lookup key entries)
unfolding get_entry
get_entry-found_in now key entries = elim (Option-cases (lookup key entries)) [
  | inl absent ↦ rw (absent, get_entry) refl
  | inr (entry, e) ↦ rw (e, get_entry) (ground arith)
]

-- A value that was stored is read until its time to live has passed, and then no more, and always
-- if that time is 0; every other key is read as before.
pub get_entry-set_entry :
    (before now : ℕ) (key value : String) (ttl : ℕ) (entries : Entries)
    → ((get_entry now key (set_entry before key value ttl entries)).0
        ≡ (if ttl == 0 || ltb now (before + ttl) then some value else none))
      × ((other : String)
          → (key == other) ≡ false
          → (get_entry now other (set_entry before key value ttl entries)).0
            ≡ (get_entry now other entries).0)
unfolding set_entry
get_entry-set_entry before now key value ttl entries =
    let entry : CacheEntry = record {
      value = value;
      expires_at = if ltb 0 ttl then before + ttl else 0;
    } in
    (
      get_entry-found_in now key (insert key entry entries)
          ∙ ap (found_in now) (lookup-insert_self key entry entries)
          ∙ ground arith,
      λ other differs.
          get_entry-found_in now other (insert key entry entries)
          ∙ ap (found_in now) (
              lookup-insert key other entry entries
              ∙ ap (λ (b : Bool). if b then some entry else lookup other entries) differs)
          ∙ sym (get_entry-found_in now other entries),
    )

get_entry-fresh :
    (before now : ℕ) (key value : String) (ttl : ℕ) (entries : Entries)
    → (ttl == 0 || ltb now (before + ttl)) ≡ true
    → get_entry now key (set_entry before key value ttl entries)
      ≡ (some value, set_entry before key value ttl entries)
unfolding get_entry set_entry
get_entry-fresh before now key value ttl entries fresh =
    let entry : CacheEntry = record {
      value = value;
      expires_at = if ltb 0 ttl then before + ttl else 0;
    } in
    let live : is_expired now entry ≡ false = ground (arith, fresh) in
    rw (lookup-insert_self key entry entries, get_entry) (rw live refl)

module _ {W T : Type 0} (clock : W → ℕ) (marshal : T → Option String)
    (unmarshal : String → Option T) (key : String) (ttl : ℕ) where
  abbrev pub load_cached : Go (CacheMemory W) (T × Option Err) → Go (CacheMemory W) (T × Option Err)
  load_cached = get_or_load marshal unmarshal (in_memory clock) key ttl

  -- The store after a value was stored, in a world that has moved on.
  abbrev pub stored_at : String → CacheMemory W → W → CacheMemory W
  stored_at raw s later = record {
    entries = set_entry (clock s.world) key raw ttl s.entries;
    world = later;
  }

  -- As long as the time to live of a stored value has not passed, or is 0, `GetOrLoad` over the
  -- in-memory store answers with the value that the text decodes to, whatever the load would do,
  -- and leaves the store and the world as they are.
  pub get_or_load-hit :
      (raw : String) (value : T) (load : Go (CacheMemory W) (T × Option Err)) (s : CacheMemory W)
      (later : W)
      → unmarshal raw ≡ some value
      → (ttl == 0 || ltb (clock later) (clock s.world + ttl)) ≡ true
      → load_cached load (stored_at raw s later) ≡ (ret (value, none), stored_at raw s later)
  unfolding get_or_load in_memory
  get_or_load-hit raw value load s later decoded fresh =
      rw
        (
          get_entry-fresh (clock s.world) (clock later) key raw ttl s.entries fresh,
          decoded,
          get_or_load,
        )
        refl

  -- A value that is loaded and can be encoded is stored.
  pub get_or_load-miss :
      (raw : String) (value : T) (load : Go (CacheMemory W) (T × Option Err)) (s s' : CacheMemory W)
      → (get_entry (clock s.world) key s.entries).0 ≡ none
      → load (record s { entries = (get_entry (clock s.world) key s.entries).1 })
        ≡ (ret (value, none), s')
      → marshal value ≡ some raw
      → load_cached load s ≡ (ret (value, none), stored_at raw s' s'.world)
  unfolding get_or_load in_memory remember
  get_or_load-miss raw value load s s' missing loaded encoded =
      rw (missing, get_or_load) (rw (loaded, get_or_load) (rw (encoded, remember) refl))
