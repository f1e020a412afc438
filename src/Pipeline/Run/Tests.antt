-- ===== src/Pipeline/Run/Tests.antt =====
-- Runs of the pipeline over small buffers, and each theorem about it at a concrete input.
mod Restart
use Prim.Native.String.{String}
use philotes.Common.{◌+◌, ◌≡◌, refl, inl, true, Option, none, some, List, [], ◌∷◌, ◌++◌, arith}
use philotes.Common.Errors.{canceled, plain, wrapped, ok, err}
use philotes.Cdc.{Event, insert, Checkpoint, CheckpointManager}
use philotes.Buffer.{Manager}
use philotes.Pipeline.State.{running, paused, stopped, transition, add_listener, new_state_machine}
use philotes.Pipeline.Retry.{Surroundings, execute, after_attempt}
use philotes.Pipeline.Run.{
  new, Pipeline, Config, selecting, waiting, returned, Input, ctx_done, source_failed, event,
  events_closed, checkpoint_tick, poll, pause_called, resume_called, source_error,
}
use philotes.Pipeline.Run.Processing.{process_event, save_checkpoint}
use philotes.Pipeline.Run.Loop.{step, run}
use philotes.Pipeline.Run.Results.{Untouched, Counts, step-Untouched, run-Counts}
use philotes.Pipeline.Run.Ends.{select-ends, waiting-ends}
use philotes.Pipeline.Run.Loss.{failed_event-checkpointed}

-- A buffer that keeps what it is given, and one that takes nothing.
abbrev pub keeper : Manager
keeper = record {
  Store = List Event;
  write = λ es st. (st ++ es, none);
  read_batch = λ source limit st. (st, ok []);
  mark_processed = λ ids st. (st, none);
  cleanup = λ retention st. (st, ok 0);
  stats = λ st. (st, err (plain 9));
}

abbrev refuser : Manager
refuser = record {
  Store = Unit;
  write = λ es st. (st, some (plain 7));
  read_batch = λ source limit st. (st, ok []);
  mark_processed = λ ids st. (st, none);
  cleanup = λ retention st. (st, ok 0);
  stats = λ st. (st, err (plain 9));
}

-- The last checkpoint.
abbrev memory : CheckpointManager
memory = record {
  Store = Option Checkpoint;
  save = λ c st. (some c, none);
  load = λ source st. (st, ok st);
}

abbrev pub config : Config
config = record { checkpoint_enabled = true; buffer_enabled = true; max_attempts = 3 }

abbrev pub arrival : String → Event
arrival at = record {
  id = "e";
  lsn = at;
  transaction_id = 1;
  timestamp = 5;
  schema = "public";
  table = "users";
  operation = insert;
  before = [];
  after = ("id", 1) ∷ [];
  key_columns = "id" ∷ [];
  metadata = [];
}

abbrev calm : Surroundings
calm = record { wait = λ n. some 100; interrupted = λ _. none }

abbrev at_select : Pipeline keeper memory
at_select = record (new keeper memory config "shop" [] none) {
  machine = record { state = running; listeners = 0 ∷ [] };
}

abbrev at_pause : Pipeline keeper memory
at_pause = record at_select { machine = record { state = paused; listeners = 0 ∷ [] } }

abbrev in_hand : Pipeline keeper memory
in_hand = record at_pause { mode = waiting (arrival "0/1") }

abbrev refused : Pipeline refuser memory
refused = record (new refuser memory config "shop" tt none) {
  machine = record { state = running; listeners = 0 ∷ [] };
}

pause_leaves_rest : Untouched at_pause (step at_pause (event (arrival "0/2") 6 calm))
unfolding new
pause_leaves_rest = step-Untouched at_pause (event (arrival "0/2") 6 calm) refl

abbrev morning : List Input
morning =
    event (arrival "0/1") 1 calm
    ∷ pause_called
    ∷ event (arrival "0/2") 2 calm
    ∷ poll 3 calm
    ∷ resume_called
    ∷ poll 4 calm
    ∷ checkpoint_tick 5
    ∷ []

memory-Counts : Counts (run (new keeper memory config "shop" [] none) morning)
memory-Counts = run-Counts keeper memory config "shop" [] none morning

-- The event that came during the pause is buffered behind it, and its position is saved.
morning_buffered :
    let p = run (new keeper memory config "shop" [] none) morning in
    (p.store ≡ arrival "0/1" ∷ arrival "0/2" ∷ [])
    × (p.stats.last_checkpoint_lsn ≡ "0/2")
    × (p.mode ≡ selecting)
unfolding new run step execute after_attempt process_event save_checkpoint transition add_listener
    new_state_machine
morning_buffered = (refl, refl, refl)

select-ends_example :
    let done_ = step at_select (ctx_done canceled 9 none) in
    let broken = step at_select (source_failed (some (plain 4))) in
    let closed = step at_select events_closed in
    (done_.mode ≡ returned none)
    × (done_.machine.state ≡ stopped)
    × (broken.mode ≡ returned (some (wrapped source_error (plain 4))))
    × (broken.machine.state ≡ stopped)
    × (broken.stats.errors ≡ at_select.stats.errors + 1)
    × (closed.mode ≡ returned none)
    × (closed.machine.state ≡ running)
unfolding new
select-ends_example = select-ends at_select canceled 9 none (plain 4) refl (inl refl)

waiting-ends_run :
    let q = step in_hand (ctx_done canceled 9 none) in
    (q.mode ≡ returned (some canceled))
    × (q.machine.state ≡ paused)
    × (q.saved ≡ in_hand.saved)
    × (q.store ≡ in_hand.store)
waiting-ends_run = waiting-ends in_hand (arrival "0/1") canceled 9 none refl refl

failed_event-checkpointed_example :
    let q = step (step refused (event (arrival "0/7") 6 calm)) (checkpoint_tick 8) in
    (q.stats.events_buffered ≡ refused.stats.events_buffered)
    × (q.stats.last_checkpoint_lsn ≡ "0/7")
    × (q.saved
        ≡ some (record {
          source_id = "shop";
          lsn = "0/7";
          transaction_id = 0;
          committed_at = 8;
          metadata = [];
        }))
unfolding new step execute after_attempt process_event
failed_event-checkpointed_example =
    failed_event-checkpointed refused (arrival "0/7") 6 8 calm refl refl refl refl (omega arith)
      (λ st. (plain 7, refl)) refl (λ c st. refl) refl
