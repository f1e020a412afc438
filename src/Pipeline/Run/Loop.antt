-- ===== src/Pipeline/Run/Loop.antt =====
-- `Run`: its beginning, its loop and its ends.
use philotes.Common.{ℕ, ◌+◌, Option, none, some, List, [], ◌∷◌, if◌then◌else◌}
use philotes.Common.Errors.{GoError, plain, wrapped}
use philotes.Cdc.{Event, CheckpointManager}
use philotes.Buffer.{Manager}
use philotes.Pipeline.State.{
  running, paused, stopping, failed, done, invalid, can_process, transition,
}
use philotes.Pipeline.Retry.{Surroundings, Outcome, panicked}
use philotes.Pipeline.Run.{
  Pipeline, Mode, selecting, waiting, returned, crashed, Input, ctx_done, source_failed, event,
  events_closed, checkpoint_tick, poll, pause_called, resume_called, transition_failed,
  source_error, move, finish,
}
use philotes.Pipeline.Run.Processing.{process_event_with_retry, save_checkpoint, restore_checkpoint}

module _ {buffer : Manager} {checkpoints : CheckpointManager} where
  -- `Run` up to its loop. A failure to restore is only logged.
  unfoldable pub begin : Pipeline buffer checkpoints → Pipeline buffer checkpoints
  unfolding move restore_checkpoint
  begin p = elim ((transition p.machine running).1) [
    | invalid from to ↦ record p { mode = returned (some (wrapped transition_failed (plain 0))) }
    | done notices ↦
        let q = record (move p running) { mode = selecting } in
        if p.config.checkpoint_enabled then (restore_checkpoint q).0 else q
  ]

  -- The case of `ctx.Done()` in the select.
  on_ctx_done : ℕ → Option GoError → Pipeline buffer checkpoints → Pipeline buffer checkpoints
  unfolding move finish save_checkpoint
  on_ctx_done now stopped_source p =
      let q = move p stopping in
      finish (if p.config.checkpoint_enabled then (save_checkpoint now q).0 else q)
        (returned stopped_source)

  -- The case of an error of the source; a nil is passed over.
  on_source_error : Option GoError → Pipeline buffer checkpoints → Pipeline buffer checkpoints
  unfolding move finish
  on_source_error none p = p
  on_source_error (some x) p =
      let q = record p { stats = record (p.stats) { errors = p.stats.errors + 1 } } in
      finish (move q failed) (returned (some (wrapped source_error x)))

  -- A panic of the retryer goes through `Run`, whose deferred transition is made.
  note_outcome : Pipeline buffer checkpoints × Outcome → Pipeline buffer checkpoints
  unfolding finish
  note_outcome (p, panicked) = finish p crashed
  note_outcome (p, o) = record p { mode = selecting }

  on_event : Event → ℕ → Surroundings → Pipeline buffer checkpoints → Pipeline buffer checkpoints
  unfolding process_event_with_retry note_outcome
  on_event e now env p =
      if can_process p.machine
      then note_outcome (process_event_with_retry e now env p)
      else record p { mode = waiting e }

  -- One input in the loop's select. What `select` does not offer there is passed over.
  select : Input → Pipeline buffer checkpoints → Pipeline buffer checkpoints
  unfolding on_ctx_done on_source_error on_event save_checkpoint finish move
  select (ctx_done e now stopped_source) p = on_ctx_done now stopped_source p
  select (source_failed x) p = on_source_error x p
  select (event e now env) p = on_event e now env p
  select events_closed p = finish p (returned none)
  select (checkpoint_tick now) p =
      if p.config.checkpoint_enabled then (save_checkpoint now p).0 else p
  select (poll now env) p = p
  select pause_called p = move p paused
  select resume_called p = move p running

  -- One input in the inner loop, with an event in hand: the others are not received there.
  wait : Event → Input → Pipeline buffer checkpoints → Pipeline buffer checkpoints
  unfolding finish on_event move
  wait held (ctx_done e now stopped_source) p = finish p (returned (some e))
  wait held (poll now env) p = on_event held now env p
  wait held pause_called p = move p paused
  wait held resume_called p = move p running
  wait held _ p = p

  -- After `Run` the machine can still be asked to pause or to resume.
  idle : Input → Pipeline buffer checkpoints → Pipeline buffer checkpoints
  unfolding move
  idle pause_called p = move p paused
  idle resume_called p = move p running
  idle _ p = p

  dispatch : Mode → Input → Pipeline buffer checkpoints → Pipeline buffer checkpoints
  unfolding select wait idle
  dispatch selecting i p = select i p
  dispatch (waiting held) i p = wait held i p
  dispatch (returned r) i p = idle i p
  dispatch crashed i p = p

  unfoldable pub step : Pipeline buffer checkpoints → Input → Pipeline buffer checkpoints
  unfolding dispatch
  step p i = dispatch p.mode i p

  unfoldable pub run_inputs : Pipeline buffer checkpoints → List Input → Pipeline buffer checkpoints
  run_inputs p [] = p
  run_inputs p (i ∷ is) = run_inputs (step p i) is

  -- `Run`, given what happens while it runs.
  unfoldable pub run : Pipeline buffer checkpoints → List Input → Pipeline buffer checkpoints
  unfolding begin run_inputs
  run p is = run_inputs (begin p) is
