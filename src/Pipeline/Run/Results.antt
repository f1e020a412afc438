-- ===== src/Pipeline/Run/Results.antt =====
-- What the pipeline keeps while it runs.
use Prim.Native.String.{String}
use philotes.Common.{ℕ, ◌≤◌, ◌≡◌, refl, false, List, [], ◌∷◌, arith}
use philotes.Cdc.{Event, CheckpointManager}
use philotes.Buffer.{Manager}
use philotes.Pipeline.State.{can_process}
use philotes.Pipeline.Retry.{Surroundings, execute}
use philotes.Pipeline.Retry.Keeps.{execute-keeps}
use philotes.Pipeline.Run.{
  new, Pipeline, Config, Mode, waiting, Input, ctx_done, source_failed, event, events_closed,
  checkpoint_tick, poll, pause_called, resume_called,
}
use philotes.Pipeline.Run.Processing.{process_event}
use philotes.Pipeline.Run.Loop.{begin, step, run_inputs, run}

module _ {buffer : Manager} {checkpoints : CheckpointManager} where
  -- An event that is not processed leaves the store, the position and the counts as they are.
  abbrev pub Untouched : Pipeline buffer checkpoints → Pipeline buffer checkpoints → Type 0
  Untouched p q =
      (q.store ≡ p.store)
      × (q.last_lsn ≡ p.last_lsn)
      × (q.stats.events_processed ≡ p.stats.events_processed)
      × (q.stats.events_buffered ≡ p.stats.events_buffered)

  -- While the machine is not running (paused, stopping, ...), no input makes the pipeline write to
  -- the buffer, move its position or count an event.
  pub step-Untouched :
      (p : Pipeline buffer checkpoints) (i : Input)
      → can_process p.machine ≡ false
      → Untouched p (step p i)
  unfolding step
  step-Untouched p (ctx_done e now r) h = ground arith
  step-Untouched p (source_failed x) h = ground arith
  step-Untouched p (event e now env) h = ground arith
  step-Untouched p events_closed h = ground arith
  step-Untouched p (checkpoint_tick now) h = ground arith
  step-Untouched p (poll now env) h = ground arith
  step-Untouched p pause_called h = ground arith
  step-Untouched p resume_called h = ground arith

  -- Every event that was buffered was counted as processed before; and nothing counts the retries.
  pub record Counts (p : Pipeline buffer checkpoints) : Type 0 where
    pub buffered_seen : p.stats.events_buffered ≤ p.stats.events_processed
    pub no_retries : p.stats.retry_count ≡ 0

  process_event-Counts :
      (e : Event) (now : ℕ) (p : Pipeline buffer checkpoints)
      → Counts p
      → Counts (process_event e now p).0
  unfolding process_event
  process_event-Counts e now p h = ground arith

  tries-Counts :
      (e : Event) (now : ℕ) (env : Surroundings) (p : Pipeline buffer checkpoints)
      → Counts p
      → Counts (execute (process_event e now) p.config.max_attempts env p).0
  tries-Counts e now env p =
      execute-keeps (process_event e now) env p.config.max_attempts Counts
        (process_event-Counts e now) p

  step-Counts : (p : Pipeline buffer checkpoints) (i : Input) → Counts p → Counts (step p i)
  unfolding step
  step-Counts p i c = go p.mode refl i
    where
      go : (m : Mode) → p.mode ≡ m → (i : Input) → Counts (step p i)
      go m e (ctx_done x now r) = ground arith
      go m e (source_failed x) = ground arith
      go m e (event x now env) = ground (arith, tries-Counts x now env p c)
      go m e events_closed = ground arith
      go m e (checkpoint_tick now) = ground arith
      go (waiting held) e (poll now env) = ground (arith, tries-Counts held now env p c)
      go m e (poll now env) = ground arith
      go m e pause_called = ground arith
      go m e resume_called = ground arith

  begin-Counts : (p : Pipeline buffer checkpoints) → Counts p → Counts (begin p)
  unfolding begin
  begin-Counts p c = ground arith

  run_inputs-Counts :
      (p : Pipeline buffer checkpoints) (is : List Input) → Counts p → Counts (run_inputs p is)
  unfolding run_inputs
  run_inputs-Counts p [] c = c
  run_inputs-Counts p (i ∷ is) c = run_inputs-Counts (step p i) is (step-Counts p i c)

-- However a new pipeline runs, it has counted at least as many processed events as buffered ones;
-- and its count of retries is 0.
pub run-Counts :
    (buffer : Manager) (checkpoints : CheckpointManager) (config : Config) (name : String)
    (store : buffer.Store) (saved : checkpoints.Store) (is : List Input)
    → Counts (run (new buffer checkpoints config name store saved) is)
unfolding run new
run-Counts buffer checkpoints config name store saved is =
    let p = new buffer checkpoints config name store saved in
    run_inputs-Counts (begin p) is (begin-Counts p (ground arith))
