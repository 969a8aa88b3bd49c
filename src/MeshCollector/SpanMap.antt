-- ===== src/MeshCollector/SpanMap.antt =====
-- The span map against the ring: it never speaks of a span that the ring has lost.
use benzene_go.Prelude.{
  ℕ, zero, suc, String, refl, ap, inl, inr, Bool, true, false, not, none, some, List, [], arith,
  eq_iff, ltb, Bool-cases, length, length-append, ◌+◌, ◌≤◌, ◌<◌, ◌≡◌, ◌&&◌, ◌||◌, ◌∷◌, ◌++◌, ◌==◌,
  string_eq, nat_eq,
}
use native.Mathlib.Nat.{mod-lt}
use benzene_go.Maps.{lookup, lookup-insert, lookup-delete, delete}
use benzene_go.Flow.{ret}
use benzene_go.MeshCollector.Spans.{
  TraceEvent, item_at, set_at, Spans, new_spans, note_service, replace_oldest, record_span,
  record_spans,
}

module _ {R : Type 0} where
  abbrev pub is_span : String → String → TraceEvent R → Bool
  is_span span service event = event.span_id == span && event.service == service

  -- Whether some event of the ring has this span id and this service.
  unfoldable pub holds_span : String → String → List (TraceEvent R) → Bool
  holds_span span service [] = false
  holds_span span service (event ∷ events) =
      is_span span service event || holds_span span service events

  pub record IsSound (capacity : ℕ) (s : Spans R) : Type 0 where
    pub bounded : length s.ring ≤ capacity
    pub next_in : s.next < capacity
    pub unnamed : lookup "" s.span_service ≡ none
    pub mapped :
        (span service : String)
        → lookup span s.span_service ≡ some service
        → holds_span span service s.ring ≡ true

  holds_span-append :
      (span service : String) (a b : List (TraceEvent R))
      → holds_span span service (a ++ b) ≡ (holds_span span service a || holds_span span service b)
  unfolding holds_span
  holds_span-append span service [] b = refl
  holds_span-append span service (e ∷ a) b = ground (arith, holds_span-append span service a b)

  item_at-lt :
      (ring : List (TraceEvent R)) (i : ℕ)
      → i < length ring
      → (e : TraceEvent R) × (item_at ring i ≡ some e)
  unfolding item_at
  item_at-lt [] i h = absurd (omega (arith, h))
  item_at-lt (e ∷ ring) zero h = (e, refl)
  item_at-lt (e ∷ ring) (suc i) h = item_at-lt ring i (omega (arith, h))

  length-set_at :
      (ring : List (TraceEvent R)) (i : ℕ) (new : TraceEvent R)
      → length (set_at ring i new) ≡ length ring
  unfolding set_at
  length-set_at [] i new = refl
  length-set_at (e ∷ ring) zero new = refl
  length-set_at (e ∷ ring) (suc i) new = ap (λ n. suc n) (length-set_at ring i new)

  -- What the ring still holds after a replacement, and that it holds the new event.
  holds_span-set_at :
      (span service : String) (ring : List (TraceEvent R)) (i : ℕ) (old new : TraceEvent R)
      → item_at ring i ≡ some old
      → (old.span_id == span) ≡ false
      → holds_span span service ring ≡ true
      → holds_span span service (set_at ring i new) ≡ true
  unfolding holds_span item_at set_at
  holds_span-set_at span service [] i old new at other h = absurd (cc h)
  holds_span-set_at span service (e ∷ ring) zero old new at other h = ground arith
  holds_span-set_at span service (e ∷ ring) (suc i) old new at other h =
      ground (arith, holds_span-set_at span service ring i old new at other)

  holds_span-new :
      (ring : List (TraceEvent R)) (i : ℕ) (old new : TraceEvent R)
      → item_at ring i ≡ some old
      → holds_span new.span_id new.service (set_at ring i new) ≡ true
  unfolding holds_span item_at set_at
  holds_span-new [] i old new at = absurd (cc at)
  holds_span-new (e ∷ ring) zero old new at =
      ground (arith, eq_iff new.span_id new.span_id, eq_iff new.service new.service)
  holds_span-new (e ∷ ring) (suc i) old new at = ground (arith, holds_span-new ring i old new at)

  note_service-IsSound :
      (capacity : ℕ) (event : TraceEvent R) (t : Spans R)
      → IsSound capacity t
      → holds_span event.span_id event.service t.ring ≡ true
      → IsSound capacity (note_service event t)
  unfolding note_service
  note_service-IsSound capacity event t sound there =
      elim (Bool-cases (not (event.service == "") && not (event.span_id == ""))) [
        | inl named ↦ rw named (record {
          bounded = sound.bounded;
          next_in = sound.next_in;
          unnamed = rw lookup-insert (ground (arith, sound.unnamed));
          mapped = λ span service e. ground (
            arith,
            there,
            sound.mapped span service,
            eq_iff event.span_id span,
            lookup-insert event.span_id span event.service t.span_service,
          );
        })
        | inr anonymous ↦ rw anonymous sound
      ]

  replace_oldest-IsSound :
      (capacity : ℕ) (event evicted : TraceEvent R) (s : Spans R)
      → IsSound capacity s
      → item_at s.ring s.next ≡ some evicted
      → IsSound capacity (replace_oldest capacity event evicted s)
  unfolding replace_oldest
  replace_oldest-IsSound capacity event evicted s sound at = record {
    bounded = rw length-set_at sound.bounded;
    next_in = mod-lt (s.next + 1) (omega (arith, sound.next_in));
    unnamed = ground (arith, sound.unnamed, lookup-delete evicted.span_id "" s.span_service);
    mapped = λ span service e. ground (
      arith,
      sound.mapped span service,
      sound.unnamed,
      eq_iff evicted.span_id span,
      eq_iff evicted.span_id "",
      lookup-delete evicted.span_id span s.span_service,
      holds_span-set_at span service s.ring s.next evicted event at,
    );
  }

  pub new_spans-IsSound : (capacity : ℕ) → 0 < capacity → IsSound capacity new_spans
  unfolding new_spans lookup
  new_spans-IsSound capacity pos = record {
    bounded = omega arith;
    next_in = pos;
    unnamed = refl;
    mapped = λ span service e. absurd (cc e);
  }

  pub record_span-IsSound :
      (capacity : ℕ) (event : TraceEvent R) (s : Spans R)
      → IsSound capacity s
      → (s' : Spans R) × (record_span capacity event s ≡ ret s') × IsSound capacity s'
  unfolding record_span
  record_span-IsSound capacity event s sound = elim (Bool-cases (ltb (length s.ring) capacity)) [
    | inl room ↦
        let t = record s { ring = s.ring ++ event ∷ [] } in
        let there : holds_span event.span_id event.service t.ring ≡ true = rw holds_span-append (
          unfold holds_span in
          ground (arith, eq_iff event.span_id event.span_id, eq_iff event.service event.service)) in
        let grown : IsSound capacity t = record {
          bounded = rw length-append (ground arith);
          next_in = sound.next_in;
          unnamed = sound.unnamed;
          mapped =
              λ span service e. rw holds_span-append (ground (arith, sound.mapped span service e));
        } in
        (note_service event t, rw room refl, note_service-IsSound capacity event t grown there)
    | inr full ↦
        let (evicted, at) = item_at-lt s.ring s.next (ground (arith, sound.next_in)) in
        let t = replace_oldest capacity event evicted s in
        (
          note_service event t,
          rw full (rw at refl),
          note_service-IsSound capacity event t
              (replace_oldest-IsSound capacity event evicted s sound at)
              (unfold replace_oldest in holds_span-new s.ring s.next evicted event at),
        )
  ]

  record_spans-keeps :
      (capacity : ℕ) (events : List (TraceEvent R)) (s : Spans R)
      → IsSound capacity s
      → (s' : Spans R) × (record_spans capacity events s ≡ ret s') × IsSound capacity s'
  unfolding record_spans
  record_spans-keeps capacity [] s sound = (s, refl, sound)
  record_spans-keeps capacity (event ∷ events) s sound =
      let (t, ran, kept) = record_span-IsSound capacity event s sound in
      let (u, rest, after) = record_spans-keeps capacity events t kept in
      (u, rw (ran, record_spans) rest, after)

  -- A collector with room for at least one event records any sequence of trace events without a
  -- panic, and leaves at most that many in the ring, its write position inside the ring's
  -- capacity, and a span map that names a service for a span only if an event in the ring has that
  -- span and that service.
  pub record_spans-IsSound :
      (capacity : ℕ) (events : List (TraceEvent R))
      → 0 < capacity
      → (s : Spans R) × (record_spans capacity events new_spans ≡ ret s) × IsSound capacity s
  record_spans-IsSound capacity events pos =
      record_spans-keeps capacity events new_spans (new_spans-IsSound capacity pos)

  -- In a full ring, where the event that makes room has a span id that another event of the ring
  -- has too, and the new event has not: recording the new event leaves that other event in the
  -- ring, and no service for its span in the span map.
  pub duplicate_span-forgotten :
      (capacity : ℕ) (event evicted : TraceEvent R) (s : Spans R) (service : String)
      → capacity ≤ length s.ring
      → item_at s.ring s.next ≡ some evicted
      → (evicted.span_id == "") ≡ false
      → (event.span_id == evicted.span_id) ≡ false
      → holds_span evicted.span_id service (set_at s.ring s.next event) ≡ true
      → (s' : Spans R) × (record_span capacity event s ≡ ret s')
        × (holds_span evicted.span_id service s'.ring ≡ true)
        × (lookup evicted.span_id s'.span_service ≡ none)
  unfolding record_span
  duplicate_span-forgotten capacity event evicted s service full at named other held =
      let t = replace_oldest capacity event evicted s in
      let is_full : ltb (length s.ring) capacity ≡ false = ground arith in
      (
        note_service event t,
        rw is_full (rw at refl),
        unfold note_service replace_oldest in ground arith,
        unfold note_service replace_oldest in
            rw named (
              ground (
                arith,
                lookup-delete evicted.span_id evicted.span_id s.span_service,
                eq_iff evicted.span_id evicted.span_id,
                lookup-insert event.span_id evicted.span_id event.service
                    (delete evicted.span_id s.span_service),
              )),
      )
