-- ===== src/Pipeline/Backpressure.antt =====
-- internal/cdc/pipeline/backpressure.go: pauses the pipeline while the buffer is full.
-- The controller and the pipeline share one state machine, which is passed beside the controller.
-- Times are readings of the clock. The counters, 64 bits wide in the code, do not wrap. The interval of
-- the checks is taken to be above 0: `time.NewTicker` panics otherwise.
pub mod Hysteresis
use philotes.Common.{
  ℕ, ◌+◌, Bool, true, false, not, ◌&&◌, Option, none, some, List, [], ◌∷◌, leb, if◌then◌else◌,
}
use philotes.Pipeline.State.{
  State, running, StateMachine, TransitionResult, done, invalid, state_eq, transition,
}

pub record BackpressureConfig : Type 0 where
  pub enabled : Bool
  pub high_watermark : ℕ
  pub low_watermark : ℕ
  pub check_interval : ℕ

abbrev pub default_backpressure_config : BackpressureConfig
default_backpressure_config = record {
  enabled = true;
  high_watermark = 8000;
  low_watermark = 5000;
  check_interval = 1000000000;
}

pub record Controller : Type 0 where
  pub config : BackpressureConfig
  pub paused : Bool
  pub paused_at : ℕ
  pub resumed_at : ℕ
  pub pause_count : ℕ
  pub resume_count : ℕ
  pub last_size : ℕ

pub new_backpressure_controller : BackpressureConfig → Controller
new_backpressure_controller config = record {
  config = config;
  paused = false;
  paused_at = 0;
  resumed_at = 0;
  pause_count = 0;
  resume_count = 0;
  last_size = 0;
}

-- What `pause` records of the transition that it tried.
note_pause : Controller → ℕ → TransitionResult → Controller
note_pause c now (invalid from to) = c
note_pause c now (done notices) = record c {
  paused = true;
  paused_at = now;
  pause_count = c.pause_count + 1;
}

note_resume : Controller → ℕ → TransitionResult → Controller
note_resume c now (invalid from to) = c
note_resume c now (done notices) = record c {
  paused = false;
  resumed_at = now;
  resume_count = c.resume_count + 1;
}

unfoldable pub pause : Controller → StateMachine → ℕ → Controller × StateMachine
unfolding note_pause
pause c sm now = let (sm', r) = transition sm State.paused in (note_pause c now r, sm')

unfoldable pub resume : Controller → StateMachine → ℕ → Controller × StateMachine
unfolding note_resume
resume c sm now = let (sm', r) = transition sm running in (note_resume c now r, sm')

-- The part of `check` after the size was read. `seen` is the state that it read from the machine;
-- `sm` is the machine when it acts on that, which others may have moved since.
unfoldable pub act : Controller → State → StateMachine → ℕ → ℕ → Controller × StateMachine
unfolding pause resume
act c seen sm now size =
    if leb c.config.high_watermark size && state_eq seen running
    then pause c sm now
    else if leb size c.config.low_watermark && state_eq seen State.paused
    then resume c sm now
    else (c, sm)

-- `none` is a failure of `getSize`.
unfoldable pub check_seen :
    Controller → State → StateMachine → ℕ → Option ℕ → Controller × StateMachine
unfolding act
check_seen c seen sm now none = (c, sm)
check_seen c seen sm now (some size) =
    let c' = record c { last_size = size } in
    if not (state_eq seen running) && not (state_eq seen State.paused)
    then (c', sm)
    else act c' seen sm now size

-- A check during which nobody else moves the machine.
unfoldable pub check : Controller → StateMachine → ℕ → Option ℕ → Controller × StateMachine
unfolding check_seen
check c sm now size = check_seen c sm.state sm now size

-- The ticks until the context is done.
unfoldable pub run_checks :
    Controller → StateMachine → List (ℕ × Option ℕ) → Controller × StateMachine
run_checks c sm [] = (c, sm)
run_checks c sm ((now, size) ∷ rest) = let (c', sm') = check c sm now size in run_checks c' sm' rest

unfoldable pub start : Controller → StateMachine → List (ℕ × Option ℕ) → Controller × StateMachine
unfolding run_checks
start c sm ticks = if not c.config.enabled then (c, sm) else run_checks c sm ticks
