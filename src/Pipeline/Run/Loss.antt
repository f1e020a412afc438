-- ===== src/Pipeline/Run/Loss.antt =====
-- What becomes of an event that the buffer never takes.
use Prim.Native.String.{String}
use text.Mathlib.Text.{◌==◌ as str_eq}
use philotes.Common.{ℕ, ◌<◌, ◌≡◌, refl, true, false, none, some, [], ◌∷◌, arith, ◌∙◌}
use philotes.Common.Errors.{GoError}
use philotes.Cdc.{Event, Checkpoint, CheckpointManager}
use philotes.Buffer.{Manager}
use philotes.Pipeline.State.{running}
use philotes.Pipeline.Retry.{Surroundings, execute}
use philotes.Pipeline.Retry.Keeps.{execute-keeps_first}
use philotes.Pipeline.Run.{Pipeline, Config, selecting, event, checkpoint_tick}
use philotes.Pipeline.Run.Processing.{process_event, checkpoint_at}
use philotes.Pipeline.Run.Loop.{step}

module _ {buffer : Manager} {checkpoints : CheckpointManager} (e : Event) (now b : ℕ)
    (config : Config) (name : String) (saved : checkpoints.Store)
    (fails : (st : buffer.Store) → (x : GoError) × ((buffer.write (e ∷ []) st).1 ≡ some x)) where
  -- No event is buffered and nothing is saved yet.
  record Behind (q : Pipeline buffer checkpoints) : Type 0 where
    config_is : q.config ≡ config
    name_is : q.source_name ≡ name
    saved_is : q.saved ≡ saved
    buffered : q.stats.events_buffered ≡ b

  -- The event is the last one seen as well.
  record Seen (q : Pipeline buffer checkpoints) : Type 0 where
    at : q.last_lsn ≡ e.lsn
    behind : Behind q

  process_event-Seen :
      (q : Pipeline buffer checkpoints)
      → config.buffer_enabled ≡ true
      → Behind q
      → Seen (process_event e now q).0
  unfolding process_event
  process_event-Seen q on h =
      let (x, f) = fails q.store in
      let c = h.config_is in
      let n = h.name_is in
      let s = h.saved_is in
      let k = h.buffered in
      record {
        at = ground arith;
        behind = record {
          config_is = ground arith;
          name_is = ground arith;
          saved_is = ground arith;
          buffered = ground arith;
        };
      }

  tries-Seen :
      (env : Surroundings) (q : Pipeline buffer checkpoints)
      → config.buffer_enabled ≡ true
      → 0 < q.config.max_attempts
      → Behind q
      → Seen (execute (process_event e now) q.config.max_attempts env q).0
  tries-Seen env q on pos h =
      execute-keeps_first (process_event e now) env q.config.max_attempts Seen
        (λ s k. process_event-Seen s on k.behind) q pos (process_event-Seen q on h)

  event-Seen :
      (env : Surroundings) (p : Pipeline buffer checkpoints)
      → p.mode ≡ selecting
      → p.machine.state ≡ running
      → config.buffer_enabled ≡ true
      → 0 < p.config.max_attempts
      → Behind p
      → Seen (step p (event e now env))
  unfolding step
  event-Seen env p m run_ on pos h = ground (arith, tries-Seen env p on pos h)

tick-saves :
    {buffer : Manager} {checkpoints : CheckpointManager} (q : Pipeline buffer checkpoints) (now : ℕ)
    → q.mode ≡ selecting
    → q.config.checkpoint_enabled ≡ true
    → str_eq q.last_lsn "" ≡ false
    → ((c : Checkpoint) (st : checkpoints.Store) → (checkpoints.save c st).1 ≡ none)
    → let r = step q (checkpoint_tick now) in
      (r.stats.events_buffered ≡ q.stats.events_buffered)
      × (r.stats.last_checkpoint_lsn ≡ q.last_lsn)
      × (r.saved
          ≡ (checkpoints.save
              (record {
                source_id = q.source_name;
                lsn = q.last_lsn;
                transaction_id = 0;
                committed_at = now;
                metadata = [];
              })
              q.saved).0)
unfolding step checkpoint_at
tick-saves q now m on named saves = let saved = saves (checkpoint_at now q) q.saved in ground arith

-- If every write of an event to the buffer fails, then a running pipeline that is given the event,
-- with an attempt allowed and no panic in its backoff, goes on behind it: it buffers nothing, yet at
-- the next tick, if the event has a position and saves succeed, it gives the store a checkpoint of its
-- source with that event's position, and counts it as the last one.
pub failed_event-checkpointed :
    {buffer : Manager} {checkpoints : CheckpointManager} (p : Pipeline buffer checkpoints)
    (e : Event) (now later : ℕ) (env : Surroundings)
    → p.mode ≡ selecting
    → p.machine.state ≡ running
    → p.config.buffer_enabled ≡ true
    → p.config.checkpoint_enabled ≡ true
    → 0 < p.config.max_attempts
    → ((st : buffer.Store) → (x : GoError) × ((buffer.write (e ∷ []) st).1 ≡ some x))
    → str_eq e.lsn "" ≡ false
    → ((c : Checkpoint) (st : checkpoints.Store) → (checkpoints.save c st).1 ≡ none)
    → (step p (event e now env)).mode ≡ selecting
    → let q = step (step p (event e now env)) (checkpoint_tick later) in
      (q.stats.events_buffered ≡ p.stats.events_buffered)
      × (q.stats.last_checkpoint_lsn ≡ e.lsn)
      × (q.saved
          ≡ (checkpoints.save
              (record {
                source_id = p.source_name;
                lsn = e.lsn;
                transaction_id = 0;
                committed_at = later;
                metadata = [];
              })
              p.saved).0)
failed_event-checkpointed p e now later env m run_ on ck pos fails named saves ok =
    let start : Behind e now p.stats.events_buffered p.config p.source_name p.saved fails p =
      record { config_is = refl; name_is = refl; saved_is = refl; buffered = refl } in
    let seen =
      event-Seen e now p.stats.events_buffered p.config p.source_name p.saved fails env p m run_ on
        pos start in
    let h = seen.behind in
    let q = step p (event e now env) in
    let (same, at, put_) = tick-saves q later ok (rw h.config_is ck) (rw seen.at named) saves in
    (same ∙ h.buffered, at ∙ seen.at, rw (put_, h.name_is, seen.at, h.saved_is) refl)
