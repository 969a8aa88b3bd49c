-- ===== src/MeshCollector/Spans.antt =====
-- meshd/store.go, `recordSpan`: the ring of trace events and the map from span to service.
use benzene_go.Prelude.{
  ℕ, zero, suc, String, not, Option, none, some, List, [], ltb, length, ◌+◌, ◌%◌, ◌&&◌, ◌∷◌, ◌++◌,
  if◌then◌else◌, ◌==◌, string_eq, nat_eq,
}
use benzene_go.Maps.{Map, insert, delete}
use benzene_go.Flow.{Flow, ret, panic}

-- The fields of a `mesh.TraceEvent` that `recordSpan` reads, and the rest of it.
pub record TraceEvent (R : Type 0) : Type 0 where
  pub service : String
  pub span_id : String
  pub rest : R

-- s[i], where it is in range, and s[i] = x
unfoldable pub item_at {ℓ} : {A : Type ℓ} → List A → ℕ → Option A
item_at [] i = none
item_at (x ∷ xs) zero = some x
item_at (x ∷ xs) (suc i) = item_at xs i

unfoldable pub set_at {ℓ} : {A : Type ℓ} → List A → ℕ → A → List A
set_at [] i new = []
set_at (x ∷ xs) zero new = new ∷ xs
set_at (x ∷ xs) (suc i) new = x ∷ set_at xs i new

-- `ring`, `next` and `spanService` of `store`
pub record Spans (R : Type 0) : Type 0 where
  pub ring : List (TraceEvent R)
  pub next : ℕ
  pub span_service : Map String String

unfoldable pub new_spans : {R : Type 0} → Spans R
new_spans = record { ring = []; next = 0; span_service = [] }

module _ {R : Type 0} where
  -- The last statement of `recordSpan`.
  unfoldable pub note_service : TraceEvent R → Spans R → Spans R
  note_service event s =
      if not (event.service == "") && not (event.span_id == "")
      then record s { span_service = insert event.span_id event.service s.span_service }
      else s

  -- The full ring: the oldest event makes room.
  unfoldable pub replace_oldest : ℕ → TraceEvent R → TraceEvent R → Spans R → Spans R
  replace_oldest capacity event evicted s = record {
    ring = set_at s.ring s.next event;
    next = (s.next + 1) % capacity;
    span_service =
        if evicted.span_id == "" then s.span_service else delete evicted.span_id s.span_service;
  }

  -- `recordSpan`
  unfoldable pub record_span : ℕ → TraceEvent R → Spans R → Flow (Spans R)
  unfolding note_service replace_oldest item_at
  record_span capacity event s =
      if ltb (length s.ring) capacity
      then ret (note_service event (record s { ring = s.ring ++ event ∷ [] }))
      else elim (item_at s.ring s.next) [
        | none ↦ panic "runtime error: index out of range"
        | some evicted ↦ ret (note_service event (replace_oldest capacity event evicted s))
      ]

  -- One batch, event by event, as `addEvents` records them.
  unfoldable pub record_spans : ℕ → List (TraceEvent R) → Spans R → Flow (Spans R)
  unfolding record_span
  record_spans capacity [] s = ret s
  record_spans capacity (event ∷ events) s = elim (record_span capacity event s) [
    | ret s' ↦ record_spans capacity events s'
    | panic text ↦ panic text
  ]
