-- ===== src/Buffer/Batch/Process.antt =====
-- One round of the processor: read a batch, try the handler, and mark the batch or give it up.
use Prim.Native.String.{String}
use philotes.Common.{
  ℕ, zero, suc, ◌+◌, ◌&&◌, Option, none, some, List, [], ◌∷◌, map, length, leb, is_some,
  if◌then◌else◌,
}
use philotes.Common.Errors.{GoError, Fallible, ok, err}
use philotes.Buffer.{BufferedEvent, Manager}
use philotes.DeadLetter
use philotes.DeadLetter.{FailedEvent, transient}
use philotes.Buffer.Batch.{BatchConfig, Round, BatchHandler, Processor}

-- How the attempts end: the handler took the batch, the context was done, or they are used up, with
-- the last error (none if no attempt was allowed).
pub data Attempted : Type 0 where
  taken : Attempted
  stopped : GoError → Attempted
  used_up : Option GoError → Attempted

-- What a round returns. `panicked` is the nil dereference of `err.Error()`.
pub data RoundResult : Type 0 where
  finished : Option GoError → RoundResult
  panicked : RoundResult

-- The IDs of a batch.
abbrev pub event_ids : List BufferedEvent → List ℕ
event_ids = map λ b. b.id

-- The entry that is written to the dead-letter queue.
failed_event : BatchConfig → ℕ → BufferedEvent → String → GoError → FailedEvent
failed_event c now b text x = record {
  id = 0;
  original_event_id = b.id;
  source_id = b.event.id;
  schema_name = b.event.schema;
  table_name = b.event.table;
  operation = b.event.operation;
  event_data = text;
  error_message = x;
  error_type = transient;
  retry_count = 0;
  created_at = now;
  last_retry_at = none;
  expires_at = some (now + c.dlq_retention);
}

module _ {m : Manager} {d : DeadLetter.Manager} {H : Type 0} where
  -- A dead letter that was written is counted; one that was not is only logged.
  note_letter : Processor m d H → d.Store × Option GoError → Processor m d H
  note_letter p (letters, some x) = record p { letters = some letters }
  note_letter p (letters, none) = record p {
    letters = some letters;
    stats = record (p.stats) { dlq_count = p.stats.dlq_count + 1 };
  }

  write_letter : FailedEvent → Processor m d H → Processor m d H
  unfolding note_letter
  write_letter f p = elim p.letters [ none ↦ p | some l ↦ note_letter p (d.write f l) ]

  -- One event of the loop; `none` is the panic at a nil error. An event that cannot be marshalled is
  -- passed over.
  unfoldable pub send_event :
      Round → Option GoError → BufferedEvent → Processor m d H → Option (Processor m d H)
  unfolding write_letter failed_event
  send_event round last b p = elim (round.json.marshal b.event) [
    | none ↦ some p
    | some text ↦ elim last [
      | none ↦ none
      | some x ↦ some (write_letter (failed_event p.config round.now b text x) p)
    ]
  ]

  unfoldable pub send_to_dlq :
      Round → Option GoError → List BufferedEvent → Processor m d H → Option (Processor m d H)
  unfolding send_event
  send_to_dlq round last [] p = some p
  send_to_dlq round last (b ∷ bs) p = elim (send_event round last b p) [
    | none ↦ none
    | some q ↦ send_to_dlq round last bs q
  ]

  -- A failed attempt is counted, also the last one.
  unfoldable pub note_failure : Processor m d H → H → Processor m d H
  note_failure p h = record p {
    handled = h;
    stats = record (p.stats) { retry_count = p.stats.retry_count + 1 };
  }

  -- The rest of the loop: `left` attempts are allowed yet, the next of them is number `attempt`.
  unfoldable pub try_handler :
      BatchHandler H
      → Round
      → List BufferedEvent
      → ℕ
      → ℕ
      → Option GoError
      → Processor m d H
      → Processor m d H × Attempted
  unfolding note_failure
  try_handler handler round bs zero attempt last p = (p, used_up last)
  try_handler handler round bs (suc left) attempt last p =
      let (h, result) = handler bs p.handled in
      elim result [
        | none ↦ (record p { handled = h }, taken)
        | some x ↦
            if leb p.config.retry_max_attempts attempt
            then (note_failure p h, used_up (some x))
            else elim (round.interrupted attempt) [
              | some stop ↦ (note_failure p h, stopped stop)
              | none ↦ try_handler handler round bs left (attempt + 1) (some x) (note_failure p h)
            ]
      ]

  note_taken :
      List BufferedEvent
      → Processor m d H
      → m.Store × Option GoError
      → Processor m d H × RoundResult
  note_taken bs p (store, some x) = (record p { store = store }, finished (some x))
  note_taken bs p (store, none) = (
    record p {
      store = store;
      stats = record (p.stats) {
        batches_processed = p.stats.batches_processed + 1;
        events_processed = p.stats.events_processed + length bs;
      };
    },
    finished none,
  )

  -- The batch is marked and counted as failed, whatever became of its dead letters.
  unfoldable pub note_given_up : List BufferedEvent → Processor m d H → Processor m d H
  note_given_up bs q = record q {
    store = (m.mark_processed (event_ids bs) q.store).0;
    stats = record (q.stats) { events_failed = q.stats.events_failed + length bs };
  }

  -- The end of a round whose attempts are used up.
  give_up :
      Round → List BufferedEvent → Option GoError → Processor m d H → Processor m d H × RoundResult
  unfolding note_given_up
  give_up round bs last p =
      let sent =
        if p.config.dlq_enabled && is_some p.letters then send_to_dlq round last bs p else some p in
      elim sent [ none ↦ (p, panicked) | some q ↦ (note_given_up bs q, finished last) ]

  unfoldable pub settle :
      Round → List BufferedEvent → Processor m d H × Attempted → Processor m d H × RoundResult
  unfolding note_taken give_up
  settle round bs (p, taken) = note_taken bs p (m.mark_processed (event_ids bs) p.store)
  settle round bs (p, stopped x) = (p, finished (some x))
  settle round bs (p, used_up last) = give_up round bs last p

  unfoldable pub process_read :
      BatchHandler H
      → Round
      → Processor m d H
      → Fallible (List BufferedEvent)
      → Processor m d H × RoundResult
  unfolding settle
  process_read handler round p (err x) = (p, finished (some x))
  process_read handler round p (ok []) = (p, finished none)
  process_read handler round p (ok (b ∷ bs)) =
      settle round (b ∷ bs)
        (try_handler handler round (b ∷ bs) p.config.retry_max_attempts 1 none p)

  unfoldable pub process_batch_with_retry :
      BatchHandler H → Round → Processor m d H → Processor m d H × RoundResult
  unfolding process_read
  process_batch_with_retry handler round p =
      let (store, r) = m.read_batch p.config.source_id p.config.batch_size p.store in
      process_read handler round (record p { store = store }) r
