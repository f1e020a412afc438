-- ===== src/Installer/Tracker/Calls.antt =====
-- The tracker under any list of calls of its methods.
use Prim.Native.String.{String}
use philotes.Common.{ℕ, Bool, Option, List, [], ◌∷◌, arith}
use philotes.Common.Maps.{lookup}
use philotes.Common.Int.{ℤ}
use philotes.Installer.Progress.{CreatedResource}
use philotes.Installer.Tracker.{ProgressTracker, new_progress_tracker, init_progress}
use philotes.Installer.Tracker.Steps.{
  start_step, complete_step, fail_step, update_sub_step, complete_sub_step, add_resource,
  reset_step, mark_complete, cleanup,
}
use philotes.Installer.Tracker.Plan.{IsTracked}
use philotes.Installer.Tracker.Methods.{
  start_step-IsTracked, complete_step-IsTracked, fail_step-IsTracked, update_sub_step-IsTracked,
  complete_sub_step-IsTracked, reset_step-IsTracked, add_resource-IsTracked,
  mark_complete-IsTracked, cleanup-IsTracked, init_progress-IsTracked,
}

-- A call, with the ID of the deployment.
pub data Call : Type 0 where
  init : String → String → ℤ → Call
  start complete reset : String → String → Call
  fail : String → String → Option String → Call
  update_sub : String → String → ℤ → ℤ → ℤ → String → Call
  complete_sub : String → String → ℤ → Call
  resource : String → CreatedResource → Call
  finish clean : String → Call

unfoldable pub call :
    (String → String) → (ℕ → String) → ℕ → Call → ProgressTracker → ProgressTracker
call lower worker_id now (init id provider workers) t =
    init_progress now worker_id id provider workers t
call lower worker_id now (start id step_id) t = start_step now id step_id t
call lower worker_id now (complete id step_id) t = complete_step now id step_id t
call lower worker_id now (reset id step_id) t = reset_step now id step_id t
call lower worker_id now (fail id step_id error) t = fail_step lower now id step_id error t
call lower worker_id now (update_sub id step_id j current total details) t =
    update_sub_step id step_id j current total details t
call lower worker_id now (complete_sub id step_id j) t = complete_sub_step id step_id j t
call lower worker_id now (resource id r) t = add_resource id r t
call lower worker_id now (finish id) t = mark_complete now id t
call lower worker_id now (clean id) t = cleanup id t

-- Calls at readings of the clock.
unfoldable pub run_calls :
    (String → String) → (ℕ → String) → List (ℕ × Call) → ProgressTracker → ProgressTracker
run_calls lower worker_id [] t = t
run_calls lower worker_id ((now, c) ∷ cs) t =
    run_calls lower worker_id cs (call lower worker_id now c t)

call-IsTracked :
    (lower : String → String) (worker_id : ℕ → String) (now : ℕ) (c : Call) (t : ProgressTracker)
    → IsTracked t
    → IsTracked (call lower worker_id now c t)
unfolding call
call-IsTracked lower worker_id now (init id p w) t h =
    init_progress-IsTracked now worker_id id p w t h
call-IsTracked lower worker_id now (start id s) t h = start_step-IsTracked now id s t h
call-IsTracked lower worker_id now (complete id s) t h = complete_step-IsTracked now id s t h
call-IsTracked lower worker_id now (reset id s) t h = reset_step-IsTracked now id s t h
call-IsTracked lower worker_id now (fail id s e) t h = fail_step-IsTracked lower now id s e t h
call-IsTracked lower worker_id now (update_sub id s j c n d) t h =
    update_sub_step-IsTracked id s j c n d t h
call-IsTracked lower worker_id now (complete_sub id s j) t h =
    complete_sub_step-IsTracked id s j t h
call-IsTracked lower worker_id now (resource id r) t h = add_resource-IsTracked id r t h
call-IsTracked lower worker_id now (finish id) t h = mark_complete-IsTracked now id t h
call-IsTracked lower worker_id now (clean id) t h = cleanup-IsTracked id t h

pub keeps-IsTracked :
    (lower : String → String) (worker_id : ℕ → String) (calls : List (ℕ × Call))
    (t : ProgressTracker)
    → IsTracked t
    → IsTracked (run_calls lower worker_id calls t)
unfolding run_calls
keeps-IsTracked lower worker_id [] t h = h
keeps-IsTracked lower worker_id ((now, c) ∷ cs) t h =
    keeps-IsTracked lower worker_id cs (call lower worker_id now c t)
      (call-IsTracked lower worker_id now c t h)

pub new-IsTracked : (hub : Bool) → IsTracked (new_progress_tracker hub)
unfolding lookup
new-IsTracked hub id p e = absurd (ground (arith, e))

-- Whatever methods of a new tracker are called, on any deployments and steps and at any readings of the
-- clock, each deployment that it tracks has the ten steps of the plan in their order, an index that is one
-- of a step, and a percentage of at most 100.
pub run_calls-IsTracked :
    (lower : String → String) (worker_id : ℕ → String) (hub : Bool) (calls : List (ℕ × Call))
    → IsTracked (run_calls lower worker_id calls (new_progress_tracker hub))
run_calls-IsTracked lower worker_id hub calls =
    keeps-IsTracked lower worker_id calls (new_progress_tracker hub) (new-IsTracked hub)
