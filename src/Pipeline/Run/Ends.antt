-- ===== src/Pipeline/Run/Ends.antt =====
-- How the loop ends, and the state that the machine is left in.
use philotes.Common.{ℕ, ◌+◌, ◌≡◌, ◌⊎◌, Option, none, some, arith}
use philotes.Common.Errors.{GoError, wrapped}
use philotes.Cdc.{Event, CheckpointManager}
use philotes.Buffer.{Manager}
use philotes.Pipeline.State.{running, paused, stopped, can_transition, transition}
use philotes.Pipeline.Run.{
  Pipeline, selecting, waiting, returned, ctx_done, source_failed, events_closed, source_error,
}
use philotes.Pipeline.Run.Loop.{step}

module _ {buffer : Manager} {checkpoints : CheckpointManager} where
  -- In the select, with the machine running or paused: a done context ends `Run` with what the source's
  -- stop returns and leaves the machine stopped; an error of the source is returned and counted, and
  -- the machine is left stopped, not failed; a closed channel of events ends `Run` with no error, and
  -- leaves the machine running or paused as it was.
  pub select-ends :
      (p : Pipeline buffer checkpoints) (e : GoError) (now : ℕ) (r : Option GoError) (x : GoError)
      → p.mode ≡ selecting
      → (p.machine.state ≡ running) ⊎ (p.machine.state ≡ paused)
      → let done_ = step p (ctx_done e now r) in
        let broken = step p (source_failed (some x)) in
        let closed = step p events_closed in
        (done_.mode ≡ returned r)
        × (done_.machine.state ≡ stopped)
        × (broken.mode ≡ returned (some (wrapped source_error x)))
        × (broken.machine.state ≡ stopped)
        × (broken.stats.errors ≡ p.stats.errors + 1)
        × (closed.mode ≡ returned none)
        × (closed.machine.state ≡ p.machine.state)
  unfolding step transition can_transition
  select-ends p e now r x m s = ground arith

  -- With an event in hand and the machine paused, a done context ends `Run` with the context's error:
  -- the machine stays paused, and neither the buffer nor the saved checkpoint changes.
  pub waiting-ends :
      (p : Pipeline buffer checkpoints) (held : Event) (e : GoError) (now : ℕ) (r : Option GoError)
      → p.mode ≡ waiting held
      → p.machine.state ≡ paused
      → let q = step p (ctx_done e now r) in
        (q.mode ≡ returned (some e))
        × (q.machine.state ≡ paused)
        × (q.saved ≡ p.saved)
        × (q.store ≡ p.store)
  unfolding step transition can_transition
  waiting-ends p held e now r m s = ground arith
