-- ===== src/Pipeline/Backpressure/Hysteresis.antt =====
-- The controller as a trigger with hysteresis.
use philotes.Common.{
  ℕ, ◌+◌, ◌≤◌, ◌<◌, ◌≡◌, refl, ◌⊎◌, Bool, true, false, Option, none, some, List, [], ◌∷◌, leb,
  if◌then◌else◌, arith,
}
use philotes.Pipeline.State.{
  State, running, stopping, stopped, failed, StateMachine, transition, can_transition,
}
use philotes.Pipeline.Backpressure.{
  BackpressureConfig, Controller, new_backpressure_controller, check, check_seen, run_checks, start,
}

-- A trigger with two thresholds: set at the high one, cleared at the low one, and otherwise as it was.
abbrev pub trigger : BackpressureConfig → Bool → Option ℕ → Bool
trigger k on none = on
trigger k on (some size) =
    if leb k.high_watermark size then true else if leb size k.low_watermark then false else on

-- The trigger after a list of readings.
abbrev pub trigger_all : BackpressureConfig → Bool → List (ℕ × Option ℕ) → Bool
trigger_all k on [] = on
trigger_all k on ((now, size) ∷ rest) = trigger_all k (trigger k on size) rest

-- The machine is running or paused, and the controller's record of its own pauses agrees.
record InStep (k : BackpressureConfig) (c : Controller) (sm : StateMachine) (on : Bool)
    : Type 0 where
  configured : c.config ≡ k
  state_on : sm.state ≡ (if on then State.paused else running)
  flag_on : c.paused ≡ on
  counts : c.pause_count ≡ c.resume_count + (if on then 1 else 0)

check-InStep :
    (k : BackpressureConfig) (c : Controller) (sm : StateMachine) (on : Bool) (now : ℕ)
    (size : Option ℕ)
    → k.low_watermark < k.high_watermark
    → InStep k c sm on
    → InStep k (check c sm now size).0 (check c sm now size).1 (trigger k on size)
unfolding check transition can_transition
check-InStep k c sm on now size h i = ground arith

run_checks-InStep :
    (k : BackpressureConfig) (c : Controller) (sm : StateMachine) (on : Bool)
    (ticks : List (ℕ × Option ℕ))
    → k.low_watermark < k.high_watermark
    → InStep k c sm on
    → InStep k (run_checks c sm ticks).0 (run_checks c sm ticks).1 (trigger_all k on ticks)
unfolding run_checks
run_checks-InStep k c sm on [] h i = i
run_checks-InStep k c sm on ((now, size) ∷ rest) h i =
    run_checks-InStep k (check c sm now size).0 (check c sm now size).1 (trigger k on size) rest h
      (check-InStep k c sm on now size h i)

-- With the low watermark below the high one, a new and enabled controller that alone moves a running
-- machine leaves it paused exactly if a two-threshold trigger over the same readings is set, records
-- that as its own pause, and has counted one more pause than resumes exactly then.
pub start-refines_trigger :
    (config : BackpressureConfig) (sm : StateMachine) (ticks : List (ℕ × Option ℕ))
    → config.enabled ≡ true
    → config.low_watermark < config.high_watermark
    → sm.state ≡ running
    → let (c, sm') = start (new_backpressure_controller config) sm ticks in
      let on = trigger_all config false ticks in
      (sm'.state ≡ (if on then State.paused else running))
      × (c.paused ≡ on)
      × (c.pause_count ≡ c.resume_count + (if on then 1 else 0))
unfolding start new_backpressure_controller
start-refines_trigger config sm ticks e h r =
    let i =
      run_checks-InStep config (new_backpressure_controller config) sm false ticks h
        (record { configured = refl; state_on = r; flag_on = refl; counts = refl }) in
    simp e (i.state_on, i.flag_on, i.counts)

-- Whatever state the check had read before, and whatever the size, a machine that has since gone to
-- stopping, stopped or failed is left as it is, and the controller counts neither a pause nor a resume.
pub check-keeps_shutdown :
    (c : Controller) (seen : State) (sm : StateMachine) (now : ℕ) (size : Option ℕ)
    → (sm.state ≡ stopping) ⊎ (sm.state ≡ stopped) ⊎ (sm.state ≡ failed)
    → let (c', sm') = check_seen c seen sm now size in
      (sm' ≡ sm)
      × (c'.paused ≡ c.paused)
      × (c'.pause_count ≡ c.pause_count)
      × (c'.resume_count ≡ c.resume_count)
unfolding check_seen transition can_transition
check-keeps_shutdown c seen sm now size h = ground arith

-- A paused machine is set running by a check that reads a size at or below the low watermark, whether
-- or not the controller's own record says that it paused it; one resume is counted, and no pause.
pub check-resumes_any_pause :
    (c : Controller) (sm : StateMachine) (now size : ℕ)
    → sm.state ≡ State.paused
    → size ≤ c.config.low_watermark
    → let (c', sm') = check c sm now (some size) in
      (sm'.state ≡ running)
      × (c'.paused ≡ false)
      × (c'.resume_count ≡ c.resume_count + 1)
      × (c'.pause_count ≡ c.pause_count)
unfolding check transition can_transition
check-resumes_any_pause c sm now size p h = ground arith
