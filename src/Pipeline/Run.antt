-- ===== src/Pipeline/Run.antt =====
-- internal/cdc/pipeline/pipeline.go: the pipeline, as a machine that takes one input at a time.
-- An input is what a `select` of `Run` receives, or a call by another goroutine (the backpressure
-- controller, `Pause`, `Resume`). A checkpoint interval and metrics are left to the environment.
mod Tests
pub mod Processing
pub mod Loop
pub mod Results
pub mod Ends
pub mod Loss
pub mod Resumes
use Prim.Native.String.{String}
use philotes.Common.{
  ℕ, ◌+◌, ◌≡◌, Bool, true, false, ◌&&◌, Option, none, some, List, [], ◌∷◌, if◌then◌else◌,
}
use philotes.Common.Errors.{GoError, plain, wrapped, Fallible, ok, err}
use philotes.Cdc.{Event, Checkpoint, CheckpointManager}
use philotes.Buffer.{Manager}
use philotes.Pipeline.State.{
  State, running, paused, stopping, stopped, failed, StateMachine, TransitionResult, done, invalid,
  new_state_machine, add_listener, can_process, transition,
}
use philotes.Pipeline.Retry.{Surroundings, Outcome, panicked, execute}

pub record Stats : Type 0 where
  pub events_processed : ℕ
  pub events_buffered : ℕ
  pub last_event_time : ℕ
  pub last_checkpoint_lsn : String
  pub last_checkpoint_at : ℕ
  pub errors : ℕ
  pub retry_count : ℕ
  pub state : State

-- Each flag says that its part is enabled and there; `max_attempts` is of the retry policy.
pub record Config : Type 0 where
  pub checkpoint_enabled : Bool
  pub buffer_enabled : Bool
  pub max_attempts : ℕ

-- Where `Run` stands: in its select, in the inner loop with an event in hand, returned, or ended by a
-- panic.
pub data Mode : Type 0 where
  selecting : Mode
  waiting : Event → Mode
  returned : Option GoError → Mode
  crashed : Mode

-- The numbers by which the errors that the pipeline makes are known.
abbrev pub transition_failed : ℕ
transition_failed = 1

abbrev pub source_error : ℕ
source_error = 2

abbrev pub buffer_write : ℕ
buffer_write = 3

-- What the loop is given next. `ctx_done` carries the context's error, the time, and what the stop of
-- the source returns; an event and a poll carry the time and what the retries meet.
pub data Input : Type 0 where
  ctx_done : GoError → ℕ → Option GoError → Input
  source_failed : Option GoError → Input
  event : Event → ℕ → Surroundings → Input
  events_closed : Input
  checkpoint_tick : ℕ → Input
  poll : ℕ → Surroundings → Input
  pause_called : Input
  resume_called : Input

module _ (buffer : Manager) (checkpoints : CheckpointManager) where
  -- `source_name` is `source.Name()`.
  pub record Pipeline : Type 0 where
    pub config : Config
    pub source_name : String
    pub machine : StateMachine
    pub last_lsn : String
    pub stats : Stats
    pub store : buffer.Store
    pub saved : checkpoints.Store
    pub mode : Mode

  unfoldable pub new : Config → String → buffer.Store → checkpoints.Store → Pipeline
  new config name store saved = record {
    config = config;
    source_name = name;
    machine = add_listener new_state_machine 0;
    last_lsn = "";
    stats = record {
      events_processed = 0;
      events_buffered = 0;
      last_event_time = 0;
      last_checkpoint_lsn = "";
      last_checkpoint_at = 0;
      errors = 0;
      retry_count = 0;
      state = State.starting;
    };
    store = store;
    saved = saved;
    mode = selecting;
  }

module _ {buffer : Manager} {checkpoints : CheckpointManager} where
  -- The listener that `New` registers.
  note_state : Pipeline buffer checkpoints → State → TransitionResult → Pipeline buffer checkpoints
  note_state p to (done notices) = record p { stats = record (p.stats) { state = to } }
  note_state p to (invalid from target) = p

  -- A transition, with the listener's call if it is made.
  unfoldable pub move : Pipeline buffer checkpoints → State → Pipeline buffer checkpoints
  unfolding note_state
  move p to = let (sm, r) = transition p.machine to in note_state (record p { machine = sm }) to r

  -- The end of `Run`, with the deferred transition to `stopped`.
  unfoldable pub finish : Pipeline buffer checkpoints → Mode → Pipeline buffer checkpoints
  unfolding move
  finish p m = record (move p stopped) { mode = m }
