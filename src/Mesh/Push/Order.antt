-- ===== src/Mesh/Push/Order.antt =====
-- Accepted events are neither lost nor doubled nor reordered.
use benzene_go.Prelude.{
  refl, sym, ap, subst, inl, inr, Bool, Option, List, [], arith, leb, Bool-cases, length,
  length-append, ◌≤◌, ◌<◌, ◌≡◌, ◌∙◌, ◌∷◌, ◌++◌,
}
use mathlib.Core.List.{append-nil, append_assoc}
use benzene_go.Mesh.Push.{
  PushPhase, selecting, flushing, draining, closing, ended, Push, Sizes, new_push, flush_batch,
  receive_event, take_event, PushMove, queued, dropped, closed, taken, ticked, flushed, stopped,
  drained, emptied, finished, and_then, Reach, start, after,
}

module _ {E : Type 0} where
  -- All events of the batches that were sent.
  unfoldable pub all_sent : List (List E) → List E
  all_sent [] = []
  all_sent (batch ∷ batches) = batch ++ all_sent batches

  all_sent-append :
      (batches : List (List E)) (batch : List E)
      → all_sent (batches ++ batch ∷ []) ≡ all_sent batches ++ batch
  unfolding all_sent
  all_sent-append [] batch = append-nil batch
  all_sent-append (first ∷ batches) batch =
      ap (λ l. first ++ l) (all_sent-append batches batch)
      ∙ sym (append_assoc first (all_sent batches) batch)

  -- Everything that a state still knows of, in order.
  abbrev pub in_order : Push E → List E
  in_order s = all_sent s.sent ++ (s.batch ++ s.queue)

  -- What the goroutine's place says of its batch: below the batch size at the `select`, at most
  -- that before the `flush` of the loop, and empty at the end.
  abbrev pub Fits : Sizes → PushPhase → List E → Type 0
  Fits sizes selecting batch = length batch < sizes.batch_size
  Fits sizes flushing batch = length batch ≤ sizes.batch_size
  Fits sizes draining batch = Unit
  Fits sizes closing batch = Unit
  Fits sizes ended batch = batch ≡ []

  pub record IsFaithful (sizes : Sizes) (accepted : List E) (s : Push E) : Type 0 where
    pub kept : in_order s ≡ accepted
    pub bounded : length s.queue ≤ sizes.buffer_size
    pub fits : Fits sizes s.phase s.batch

  module _ (phase : PushPhase) where
    flush-in_order :
        (sent : List (List E)) (batch queue : List E) (at : PushPhase) (stop : Bool)
        → in_order (
            flush_batch phase
              (record { queue = queue; batch = batch; sent = sent; phase = at; stop = stop }))
          ≡ all_sent sent ++ (batch ++ queue)
    unfolding flush_batch
    flush-in_order sent [] queue at stop = refl
    flush-in_order sent (e ∷ es) queue at stop =
        ap (λ l. l ++ queue) (all_sent-append sent (e ∷ es))
        ∙ append_assoc (all_sent sent) (e ∷ es) queue

    flush-rest :
        (sent : List (List E)) (batch queue : List E) (at : PushPhase) (stop : Bool)
        → let s =
            flush_batch phase
              (record { queue = queue; batch = batch; sent = sent; phase = at; stop = stop }) in
          (s.batch ≡ []) × (s.queue ≡ queue) × (s.phase ≡ phase)
    unfolding flush_batch
    flush-rest sent [] queue at stop = (refl, refl, refl)
    flush-rest sent (e ∷ es) queue at stop = (refl, refl, refl)

    -- A flush leaves an empty batch, which fits where the goroutine goes on.
    flush_batch-IsFaithful :
        (sizes : Sizes) (accepted : List E) (s : Push E)
        → Fits sizes phase []
        → IsFaithful sizes accepted s
        → IsFaithful sizes accepted (flush_batch phase s)
    flush_batch-IsFaithful sizes accepted s empty f =
        let (cleared, same, there) = flush-rest s.sent s.batch s.queue s.phase s.stop in
        record {
          kept = flush-in_order s.sent s.batch s.queue s.phase s.stop ∙ f.kept;
          bounded = omega (arith, f.bounded, ap length same);
          fits =
              subst (λ p. Fits sizes p (flush_batch phase s).batch) (sym there)
                (subst (Fits sizes phase) (sym cleared) empty);
        }

  -- An event that goes from the queue to the batch keeps its place.
  received :
      (accepted : List E) (event : E) (queue : List E) (s : Push E)
      → s.queue ≡ event ∷ queue
      → in_order s ≡ accepted
      → all_sent s.sent ++ ((s.batch ++ event ∷ []) ++ queue) ≡ accepted
  received accepted event queue s front kept =
      ap (λ l. all_sent s.sent ++ l)
        (append_assoc s.batch (event ∷ []) queue ∙ ap (λ q. s.batch ++ q) (sym front))
      ∙ kept

  module _ (sizes : Sizes) (positive : 0 < sizes.batch_size) where
    at_phase :
        (s : Push E) (phase : PushPhase)
        → s.phase ≡ phase
        → Fits sizes s.phase s.batch
        → Fits sizes phase s.batch
    at_phase s phase there fits = subst (λ p. Fits sizes p s.batch) there fits

    take_event-IsFaithful :
        (accepted : List E) (event : E) (queue : List E) (s : Push E)
        → s.phase ≡ selecting
        → s.queue ≡ event ∷ queue
        → IsFaithful sizes accepted s
        → IsFaithful sizes accepted (take_event sizes.batch_size event queue s)
    unfolding take_event receive_event
    take_event-IsFaithful accepted event queue s there front f =
        let kept = received accepted event queue s front f.kept in
        let shorter : length queue ≤ sizes.buffer_size =
          omega (arith, f.bounded, ap length front) in
        let room = at_phase s selecting there f.fits in
        let longer = length-append s.batch (event ∷ []) in
        elim (Bool-cases (leb sizes.batch_size (length (s.batch ++ event ∷ [])))) [
          | inl full ↦
              rw full
                (record { kept = kept; bounded = shorter; fits = omega (arith, room, longer) })
          | inr not_full ↦ rw not_full (record {
            kept = kept;
            bounded = shorter;
            fits =
                subst (λ p. Fits sizes p (s.batch ++ event ∷ [])) (sym there)
                  (ground (arith, not_full));
          })
        ]

    move-IsFaithful :
        (accepted : List E) (event : Option E) (s s' : Push E)
        → PushMove sizes s event s'
        → IsFaithful sizes accepted s
        → IsFaithful sizes (and_then accepted event) s'
    unfolding receive_event
    move-IsFaithful accepted _ s _ (queued event room) f = record {
      kept =
          ap (λ l. all_sent s.sent ++ l) (sym (append_assoc s.batch s.queue (event ∷ [])))
          ∙ sym (append_assoc (all_sent s.sent) (s.batch ++ s.queue) (event ∷ []))
          ∙ ap (λ l. l ++ event ∷ []) f.kept;
      bounded = omega (arith, room, length-append s.queue (event ∷ []));
      fits = f.fits;
    }
    move-IsFaithful accepted _ s _ (dropped event full) f = f
    move-IsFaithful accepted _ s _ closed f = record {
      kept = f.kept;
      bounded = f.bounded;
      fits = f.fits;
    }
    move-IsFaithful accepted _ s _ (taken event queue there front) f =
        take_event-IsFaithful accepted event queue s there front f
    move-IsFaithful accepted _ s _ (ticked there) f = record {
      kept = f.kept;
      bounded = f.bounded;
      fits = omega (arith, at_phase s selecting there f.fits);
    }
    move-IsFaithful accepted _ s _ (flushed there) f =
        flush_batch-IsFaithful selecting sizes accepted s (omega (arith, positive)) f
    move-IsFaithful accepted _ s _ (stopped there stop) f = record {
      kept = f.kept;
      bounded = f.bounded;
      fits = tt;
    }
    move-IsFaithful accepted _ s _ (drained event queue there front) f = record {
      kept = received accepted event queue s front f.kept;
      bounded = omega (arith, f.bounded, ap length front);
      fits = subst (λ p. Fits sizes p (s.batch ++ event ∷ [])) (sym there) tt;
    }
    move-IsFaithful accepted _ s _ (emptied there empty) f = record {
      kept = f.kept;
      bounded = f.bounded;
      fits = tt;
    }
    move-IsFaithful accepted _ s _ (finished there) f =
        flush_batch-IsFaithful ended sizes accepted s refl f

  -- With a positive batch size, however callers and the goroutine of the trace exporter
  -- interleave, one channel operation or send at a time, also while the queue is emptied after
  -- `Close`: the events that were accepted are, in order, those of the sent batches, then those of
  -- the batch being filled, then those of the queue; the queue stays within its buffer; and the
  -- batch is below the batch size at the `select`, at most the batch size before a flush of the
  -- loop, and empty once the goroutine has ended.
  pub Reach-IsFaithful :
      (sizes : Sizes) (accepted : List E) (s : Push E)
      → 0 < sizes.batch_size
      → Reach sizes accepted s
      → IsFaithful sizes accepted s
  unfolding new_push all_sent
  Reach-IsFaithful sizes _ _ positive start = record {
    kept = refl;
    bounded = omega arith;
    fits = omega (arith, positive);
  }
  Reach-IsFaithful sizes _ _ positive (after accepted event s s' reached move) =
      move-IsFaithful sizes positive accepted event s s' move
        (Reach-IsFaithful sizes accepted s positive reached)
