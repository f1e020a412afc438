-- ===== src/Scaling/Lifecycle.antt =====
-- internal/scaling/manager.go: starting and stopping the loop of the scaling manager. The interval of the
-- loop is taken to be above 0: `time.NewTicker` panics otherwise.
use philotes.Common.{
  ℕ, ◌+◌, ◌≤◌, ◌≡◌, refl, ◌⊎◌, inl, inr, Bool, true, false, Option, none, some, List, [], ◌∷◌,
  if◌then◌else◌, arith,
}
use philotes.Common.Errors.{GoError, plain}
use philotes.Scaling.Manager.{already_running}

-- `stop_closed` says that the present `stopCh` is closed, and `loops` counts the loops that run.
pub record Lifecycle : Type 0 where
  pub running : Bool
  pub stop_closed : Bool
  pub loops : ℕ

abbrev pub idle : Lifecycle
idle = record { running = false; stop_closed = false; loops = 0 }

unfoldable pub start : Lifecycle → Lifecycle × Option GoError
start l =
    if l.running
    then (l, some (plain already_running))
    else (record { running = true; stop_closed = false; loops = l.loops + 1 }, none)

-- `Stop` up to the close of the channel. What is returned besides: whether it goes on to wait, and
-- `none` for the panic of closing a closed channel.
unfoldable pub close_stop : Lifecycle → Option (Lifecycle × Bool)
close_stop l =
    if l.running
    then (if l.stop_closed then none else some (record l { stop_closed = true }, true))
    else some (l, false)

-- The loops have ended: `Stop` returns.
end_stop : Lifecycle → Lifecycle
end_stop l = record l { running = false; loops = 0 }

-- `Stop`, while no other runs.
unfoldable pub stop : Lifecycle → Option Lifecycle
unfolding close_stop end_stop
stop l = elim (close_stop l) [
  | none ↦ none
  | some (l', waits) ↦ some (if waits then end_stop l' else l')
]

-- The context is done: the loop ends, and the manager still counts as running.
unfoldable pub cancel : Lifecycle → Lifecycle
cancel l = record l { loops = 0 }

pub data Call : Type 0 where
  starts stops cancels : Call

-- Calls that do not overlap; `none` is a panic among them.
unfoldable pub run_calls : Lifecycle → List Call → Option Lifecycle
run_calls l [] = some l
run_calls l (starts ∷ cs) = run_calls (start l).0 cs
run_calls l (cancels ∷ cs) = run_calls (cancel l) cs
run_calls l (stops ∷ cs) = elim (stop l) [ none ↦ none | some l' ↦ run_calls l' cs ]

-- A running manager has an open channel and at most one loop, and one that is not has none.
abbrev pub IsSound : Lifecycle → Type 0
IsSound l =
    ((l.running ≡ true) × (l.stop_closed ≡ false) × (l.loops ≤ 1))
    ⊎ ((l.running ≡ false) × (l.loops ≡ 0))

start-IsSound : (l : Lifecycle) → IsSound l → IsSound (start l).0
unfolding start
start-IsSound l h = ground arith

cancel-IsSound : (l : Lifecycle) → IsSound l → IsSound (cancel l)
unfolding cancel
cancel-IsSound l h = ground arith

stop-IsSound : (l : Lifecycle) → IsSound l → (l' : Lifecycle) × (stop l ≡ some l') × IsSound l'
unfolding stop
stop-IsSound l (inl (r, c, n)) =
    (record { running = false; stop_closed = true; loops = 0 }, ground arith, inr (refl, refl))
stop-IsSound l (inr (r, n)) = (l, ground arith, inr (r, n))

-- Calls of a new manager that do not overlap never panic; after them, a manager that runs has an open
-- channel and at most one loop, and one that does not run has no loop.
pub run_calls-IsSound :
    (cs : List Call) → (l : Lifecycle) × (run_calls idle cs ≡ some l) × IsSound l
unfolding run_calls
run_calls-IsSound cs = from idle (inr (refl, refl)) cs
  where
    from :
        (l : Lifecycle)
        → IsSound l
        → (cs : List Call) → (l' : Lifecycle) × (run_calls l cs ≡ some l') × IsSound l'
    from l h [] = (l, refl, h)
    from l h (starts ∷ cs) = let (l', e, k) = from (start l).0 (start-IsSound l h) cs in (l', e, k)
    from l h (cancels ∷ cs) = let (l', e, k) = from (cancel l) (cancel-IsSound l h) cs in (l', e, k)
    from l h (stops ∷ cs) =
        let (l1, e1, h1) = stop-IsSound l h in
        let (l', e, k) = from l1 h1 cs in (l', rw (e1, run_calls) e, k)

-- Two stops of a running and sound manager that overlap panic: the first closes the channel and goes
-- on to wait, the manager still counts as running, and the second closes the channel again.
pub overlapping_stops-panic :
    (l : Lifecycle)
    → IsSound l
    → l.running ≡ true
    → (l' : Lifecycle) × (close_stop l ≡ some (l', true)) × (close_stop l' ≡ none)
unfolding close_stop
overlapping_stops-panic l h r = (record l { stop_closed = true }, ground arith, ground arith)
