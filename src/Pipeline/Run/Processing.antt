-- ===== src/Pipeline/Run/Processing.antt =====
-- The work on one event, and the checkpoints.
use text.Mathlib.Text.{◌==◌ as str_eq}
use philotes.Common.{ℕ, ◌+◌, Option, none, some, [], ◌∷◌, if◌then◌else◌}
use philotes.Common.Errors.{GoError, wrapped, Fallible, ok, err}
use philotes.Cdc.{Event, Checkpoint, CheckpointManager}
use philotes.Buffer.{Manager}
use philotes.Pipeline.Retry.{Surroundings, Outcome, execute}
use philotes.Pipeline.Run.{Pipeline, buffer_write}

module _ {buffer : Manager} {checkpoints : CheckpointManager} where
  -- What `processEvent` does behind the write to the buffer.
  note_write :
      Pipeline buffer checkpoints
      → buffer.Store × Option GoError
      → Pipeline buffer checkpoints × Option GoError
  note_write q (store, some x) = (record q { store = store }, some (wrapped buffer_write x))
  note_write q (store, none) = (
    record q {
      store = store;
      stats = record (q.stats) { events_buffered = q.stats.events_buffered + 1 };
    },
    none,
  )

  -- The head of `processEvent`: the event is counted, and its LSN noted.
  note_event : Event → ℕ → Pipeline buffer checkpoints → Pipeline buffer checkpoints
  note_event e now p = record p {
    last_lsn = e.lsn;
    stats = record (p.stats) {
      events_processed = p.stats.events_processed + 1;
      last_event_time = now;
    };
  }

  unfoldable pub process_event :
      Event → ℕ → Pipeline buffer checkpoints → Pipeline buffer checkpoints × Option GoError
  unfolding note_write note_event
  process_event e now p =
      if p.config.buffer_enabled
      then note_write (note_event e now p) (buffer.write (e ∷ []) p.store)
      else (note_event e now p, none)

  -- The outcome is only logged: the loop goes on whatever it is.
  unfoldable pub process_event_with_retry :
      Event → ℕ → Surroundings → Pipeline buffer checkpoints → Pipeline buffer checkpoints × Outcome
  process_event_with_retry e now env p = execute (process_event e now) p.config.max_attempts env p

  unfoldable pub checkpoint_at : ℕ → Pipeline buffer checkpoints → Checkpoint
  checkpoint_at now p = record {
    source_id = p.source_name;
    lsn = p.last_lsn;
    transaction_id = 0;
    committed_at = now;
    metadata = [];
  }

  unfoldable pub note_save :
      Pipeline buffer checkpoints
      → ℕ
      → checkpoints.Store × Option GoError
      → Pipeline buffer checkpoints × Option GoError
  note_save p now (saved, some x) = (record p { saved = saved }, some x)
  note_save p now (saved, none) = (
    record p {
      saved = saved;
      stats = record (p.stats) { last_checkpoint_lsn = p.last_lsn; last_checkpoint_at = now };
    },
    none,
  )

  unfoldable pub save_checkpoint :
      ℕ → Pipeline buffer checkpoints → Pipeline buffer checkpoints × Option GoError
  unfolding checkpoint_at note_save
  save_checkpoint now p =
      if str_eq p.last_lsn ""
      then (p, none)
      else note_save p now (checkpoints.save (checkpoint_at now p) p.saved)

  unfoldable pub note_load :
      Pipeline buffer checkpoints
      → checkpoints.Store × Fallible (Option Checkpoint)
      → Pipeline buffer checkpoints × Option GoError
  note_load p (saved, err x) = (record p { saved = saved }, some x)
  note_load p (saved, ok none) = (record p { saved = saved }, none)
  note_load p (saved, ok (some c)) = (
    record p {
      saved = saved;
      last_lsn = c.lsn;
      stats = record (p.stats) { last_checkpoint_lsn = c.lsn; last_checkpoint_at = c.committed_at };
    },
    none,
  )

  unfoldable pub restore_checkpoint :
      Pipeline buffer checkpoints → Pipeline buffer checkpoints × Option GoError
  unfolding note_load
  restore_checkpoint p = note_load p (checkpoints.load p.source_name p.saved)
