-- ===== src/Mesh/Push.antt =====
-- mesh/push.go: the queue of the trace exporter and the goroutine that sends it in batches, as
-- steps that any number of callers and the goroutine take in any order. The goroutine's step is one
-- channel operation or one send, also in the loop that empties the queue at the end, so callers
-- come in between.
pub mod Order
use benzene_go.Prelude.{
  ℕ, Bool, true, false, Option, none, some, List, [], leb, length, ◌≤◌, ◌<◌, ◌≡◌, ◌∷◌, ◌++◌,
  if◌then◌else◌, ◌==◌, string_eq, nat_eq,
}

-- Where the goroutine stands: at the `select` of `loop`, before the `flush` of one of its first two
-- cases, in `drainQueue`, before the last `flush`, or behind it.
pub data PushPhase : Type 0 where
  selecting flushing draining closing ended : PushPhase

-- The queue, the batch that the goroutine holds, the batches that it sent, where it stands, and
-- whether `Close` was called.
pub record Push (E : Type 0) : Type 0 where
  pub queue : List E
  pub batch : List E
  pub sent : List (List E)
  pub phase : PushPhase
  pub stop : Bool

-- The sizes after `NewPushExporter`.
pub record Sizes : Type 0 where
  pub batch_size : ℕ
  pub buffer_size : ℕ

-- A size that is not positive is replaced by its default; a negative one is 0 here.
unfoldable pub sizes_of : ℕ → ℕ → Sizes
sizes_of batch_size buffer_size = record {
  batch_size = if batch_size == 0 then 64 else batch_size;
  buffer_size = if buffer_size == 0 then 1024 else buffer_size;
}

module _ {E : Type 0} where
  unfoldable pub new_push : Push E
  new_push = record { queue = []; batch = []; sent = []; phase = selecting; stop = false }

  -- `flush`, and where the goroutine goes on.
  unfoldable pub flush_batch : PushPhase → Push E → Push E
  flush_batch phase s = elim s.batch [
    | [] ↦ record s { phase = phase }
    | e ∷ es ↦ record s { batch = []; sent = s.sent ++ (e ∷ es) ∷ []; phase = phase }
  ]

  -- An event from the queue joins the batch.
  unfoldable pub receive_event : E → List E → Push E → Push E
  receive_event event queue s = record s { queue = queue; batch = s.batch ++ event ∷ [] }

  -- The first case of `loop`.
  unfoldable pub take_event : ℕ → E → List E → Push E → Push E
  unfolding receive_event
  take_event batch_size event queue s =
      let grown = receive_event event queue s in
      if leb batch_size (length grown.batch) then record grown { phase = flushing } else grown

  -- One step, and the event that it accepted.
  pub data PushMove (sizes : Sizes) (s : Push E) : Option E → Push E → Type 0 where
    -- `Export`
    queued :
        (event : E)
        → length s.queue < sizes.buffer_size
        → PushMove sizes s (some event) (record s { queue = s.queue ++ event ∷ [] })
    dropped : (event : E) → sizes.buffer_size ≤ length s.queue → PushMove sizes s none s
    -- `Close`
    closed : PushMove sizes s none (record s { stop = true })
    -- `loop`
    taken :
        (event : E) (queue : List E)
        → s.phase ≡ selecting
        → s.queue ≡ event ∷ queue
        → PushMove sizes s none (take_event sizes.batch_size event queue s)
    ticked : s.phase ≡ selecting → PushMove sizes s none (record s { phase = flushing })
    flushed : s.phase ≡ flushing → PushMove sizes s none (flush_batch selecting s)
    stopped :
        s.phase ≡ selecting → s.stop ≡ true → PushMove sizes s none (record s { phase = draining })
    -- `drainQueue`
    drained :
        (event : E) (queue : List E)
        → s.phase ≡ draining
        → s.queue ≡ event ∷ queue
        → PushMove sizes s none (receive_event event queue s)
    emptied :
        s.phase ≡ draining → s.queue ≡ [] → PushMove sizes s none (record s { phase = closing })
    -- The last `flush`
    finished : s.phase ≡ closing → PushMove sizes s none (flush_batch ended s)

  abbrev pub and_then : List E → Option E → List E
  and_then accepted none = accepted
  and_then accepted (some event) = accepted ++ event ∷ []

  -- The states that steps lead to, with the accepted events in order.
  pub data Reach (sizes : Sizes) : List E → Push E → Type 0 where
    start : Reach sizes [] new_push
    after :
        (accepted : List E) (event : Option E) (s s' : Push E)
        → Reach sizes accepted s
        → PushMove sizes s event s'
        → Reach sizes (and_then accepted event) s'
