-- ===== src/Buffer/Batch/Lifecycle.antt =====
-- Starting and stopping the processor, and its rounds of cleaning up.
use philotes.Common.{◌≡◌, Bool, true, false, ◌&&◌, Option, none, some, ltb, if◌then◌else◌, arith}
use philotes.Buffer.{Manager}
use philotes.DeadLetter
use philotes.Buffer.Batch.{Processor}

module _ {m : Manager} {d : DeadLetter.Manager} {H : Type 0} where
  -- `Start`, with whether it starts the two loops. They end at once if `stopCh` is closed.
  unfoldable pub start : Processor m d H → Processor m d H × Bool × Bool
  start p = if p.running then (p, false, false) else (
    record p { running = true },
    true,
    ltb 0 p.config.cleanup_interval && ltb 0 p.config.retention,
  )

  -- `Stop`; `none` is the panic of closing a closed channel.
  unfoldable pub stop : Processor m d H → Option (Processor m d H)
  stop p =
      if p.running
      then (if p.stop_closed then none else some (record p { running = false; stop_closed = true }))
      else some p

  -- Whether a loop that `Start` starts goes on at all.
  abbrev pub loops_live : Processor m d H → Bool
  loops_live p = if p.stop_closed then false else true

  -- One tick of the cleanup loop. Errors are logged.
  unfoldable pub cleanup_round : Processor m d H → Processor m d H
  cleanup_round p =
      let q = record p { store = (m.cleanup p.config.retention p.store).0 } in
      elim q.letters [ none ↦ q | some l ↦ record q { letters = some ((d.cleanup l).0) } ]

  -- A running processor that was stopped and is started again runs, but its loops end at once, and
  -- the next stop panics.
  pub restart_panics :
      (p q : Processor m d H)
      → p.running ≡ true
      → stop p ≡ some q
      → let r = (start q).0 in (r.running ≡ true) × (loops_live r ≡ false) × (stop r ≡ none)
  unfolding start stop
  restart_panics p q run_ e = ground arith
