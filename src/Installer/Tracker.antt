-- ===== src/Installer/Tracker.antt =====
-- internal/installer/tracker.go: the tracker of the progress of deployments. Each method holds the lock and is
-- one step. `sent` is what the hub was given, the newest first; none is a nil hub.
pub mod Steps
pub mod Plan
pub mod Keeps
pub mod Methods
pub mod Calls
use Prim.Native.String.{String}
use philotes.Common.{
  ℕ, zero, suc, ◌-◌, Bool, true, false, ◌&&◌, Option, none, some, List, [], ◌∷◌, ◌++◌, leb, length,
  if◌then◌else◌, map,
}
use philotes.Common.Int.{ℤ, pos, negsuc, pos_part, ltb_ℤ}
use philotes.Common.Maps.{lookup, put, remove}
use philotes.Installer.Errors.{StepError}
use philotes.Installer.Errors.Suggestions.{get_error_suggestion}
use philotes.Installer.Progress.{
  StepStatus, pending, in_progress, completed, failed, SubStep, DeploymentStep, CreatedResource,
  DeploymentProgress, get_deployment_steps, calculate_total_estimate, calculate_overall_progress,
  calculate_remaining_time, elapsed_ms, step_id_to_index,
}

pub record StepUpdate : Type 0 where
  pub step_id : String
  pub status : StepStatus
  pub elapsed_time_ms : ℤ
  pub sub_step_index : ℤ
  pub sub_step_current : ℤ
  pub sub_step_total : ℤ

pub data Message : Type 0 where
  progress_update : ℕ → ℕ → ℤ → Message
  step_update : StepUpdate → Message
  error_update : String → StepError → Message

pub record ProgressTracker : Type 0 where
  pub progress : List (String × DeploymentProgress)
  pub sent : Option (List (String × Message))

module _ {ℓ} {A : Type ℓ} where
  abbrev pub at : ℕ → List A → Option A
  at i [] = none
  at zero (x ∷ xs) = some x
  at (suc i) (x ∷ xs) = at i xs

  -- What an assignment through a pointer to the i-th element does.
  abbrev pub modify : (A → A) → ℕ → List A → List A
  modify f i [] = []
  modify f zero (x ∷ xs) = f x ∷ xs
  modify f (suc i) (x ∷ xs) = x ∷ modify f i xs

  -- The loops that change all elements from i on, and all before i.
  abbrev pub modify_from : (A → A) → ℕ → List A → List A
  modify_from f zero xs = map f xs
  modify_from f (suc i) [] = []
  modify_from f (suc i) (x ∷ xs) = x ∷ modify_from f i xs

  abbrev pub modify_before : (A → A) → ℕ → List A → List A
  modify_before f zero xs = xs
  modify_before f (suc i) [] = []
  modify_before f (suc i) (x ∷ xs) = f x ∷ modify_before f i xs

unfoldable pub broadcast : String → Message → ProgressTracker → ProgressTracker
broadcast id m t = record t {
  sent = elim (t.sent) [ none ↦ none | some sent ↦ some ((id, m) ∷ sent) ];
}

unfoldable pub broadcast_progress : String → DeploymentProgress → ProgressTracker → ProgressTracker
unfolding broadcast
broadcast_progress id p t =
    broadcast id (progress_update p.overall_progress p.current_step_index p.estimated_remaining_ms)
      t

abbrev plain_update : DeploymentStep → StepUpdate
plain_update s = record {
  step_id = s.id;
  status = s.status;
  elapsed_time_ms = s.elapsed_time_ms;
  sub_step_index = pos 0;
  sub_step_current = pos 0;
  sub_step_total = pos 0;
}

-- The sub-step's index is never negative (`update_sub_step` guards it).
update_of : DeploymentStep → StepUpdate
update_of s = elim (at (pos_part s.current_sub_step) s.sub_steps) [
  | none ↦ plain_update s
  | some sub ↦ record (plain_update s) {
    sub_step_index = s.current_sub_step;
    sub_step_current = sub.current;
    sub_step_total = sub.total;
  }
]

unfoldable pub broadcast_step_update : String → DeploymentStep → ProgressTracker → ProgressTracker
unfolding broadcast update_of
broadcast_step_update id s t = broadcast id (step_update (update_of s)) t

unfoldable pub broadcast_error : String → String → StepError → ProgressTracker → ProgressTracker
unfolding broadcast
broadcast_error id step_id e t = broadcast id (error_update step_id e) t

abbrev pub new_progress : ℕ → String → List DeploymentStep → DeploymentProgress
new_progress now id steps = record {
  deployment_id = id;
  overall_progress = 0;
  current_step_index = 0;
  steps = steps;
  started_at = some now;
  estimated_remaining_ms = calculate_total_estimate steps;
  can_retry = false;
  resources_created = [];
}

abbrev pub store : String → DeploymentProgress → ProgressTracker → ProgressTracker
store id p t = record t { progress = put id p t.progress }

-- `hub` says whether there is one.
abbrev pub new_progress_tracker : Bool → ProgressTracker
new_progress_tracker hub = record { progress = []; sent = if hub then some [] else none }

unfoldable pub init_progress :
    ℕ → (ℕ → String) → String → String → ℤ → ProgressTracker → ProgressTracker
unfolding broadcast_progress
init_progress now worker_id id provider worker_count t =
    let p = new_progress now id (get_deployment_steps worker_id provider worker_count) in
    broadcast_progress id p (store id p t)

abbrev pub get_progress : String → ProgressTracker → Option DeploymentProgress
get_progress id t = lookup id t.progress

-- The methods that change a step of a deployment do nothing if there is no progress, no such step, or if
-- `change` returns early; `tell` is what they send then.
abbrev pub on_step :
    (DeploymentProgress → ℕ → Option DeploymentProgress)
    → (DeploymentProgress → ℕ → ProgressTracker → ProgressTracker)
    → String
    → String
    → ProgressTracker
    → ProgressTracker
on_step change tell id step_id t = elim (lookup id t.progress) [
  | none ↦ t
  | some p ↦ elim (step_id_to_index step_id p.steps) [
    | none ↦ t
    | some i ↦ elim (change p i) [ none ↦ t | some q ↦ tell q i (store id q t) ]
  ]
]

-- The percentage and the time that remains, computed again.
abbrev pub recount : ℕ → ℕ → DeploymentProgress → DeploymentProgress
recount now i p = record p {
  overall_progress = calculate_overall_progress p.steps;
  estimated_remaining_ms = calculate_remaining_time now p.steps i;
}
