-- ===== src/Installer/Tracker/Steps.antt =====
-- internal/installer/tracker.go: the methods of the tracker that change a deployment.
use Prim.Native.String.{String}
use philotes.Common.{
  ℕ, ◌-◌, Bool, false, Option, none, some, List, [], ◌∷◌, ◌++◌, ltb, length, if◌then◌else◌, map,
}
use philotes.Common.Int.{ℤ, pos, negsuc, pos_part}
use philotes.Common.Maps.{lookup, remove}
use philotes.Installer.Errors.{StepError}
use philotes.Installer.Errors.Suggestions.{get_error_suggestion}
use philotes.Installer.Progress.{
  StepStatus, pending, in_progress, completed, failed, SubStep, DeploymentStep, CreatedResource,
  DeploymentProgress, elapsed_ms, step_id_to_index,
}
use philotes.Installer.Tracker.{
  ProgressTracker, at, modify, modify_from, modify_before, on_step, recount, store,
  broadcast_progress, broadcast_step_update, broadcast_error,
}

abbrev pub tell_step : String → DeploymentProgress → ℕ → ProgressTracker → ProgressTracker
tell_step id q i t = elim (at i q.steps) [ none ↦ t | some s ↦ broadcast_step_update id s t ]

abbrev pub tell_both : String → DeploymentProgress → ℕ → ProgressTracker → ProgressTracker
tell_both id q i t = broadcast_progress id q (tell_step id q i t)

abbrev pub start_at : ℕ → DeploymentProgress → ℕ → DeploymentProgress
start_at now p i = recount now i (record p {
  steps = modify (λ s. record s { status = in_progress; started_at = some now }) i p.steps;
  current_step_index = i;
})

unfoldable pub start_step : ℕ → String → String → ProgressTracker → ProgressTracker
start_step now id step_id t = on_step (λ p i. some (start_at now p i)) (tell_both id) id step_id t

abbrev ended : ℕ → StepStatus → DeploymentStep → DeploymentStep
ended now status s = record s {
  status = status;
  completed_at = some now;
  elapsed_time_ms = elim (s.started_at) [
    | none ↦ s.elapsed_time_ms
    | some since ↦ elapsed_ms now since
  ];
}

abbrev completed_sub : SubStep → SubStep
completed_sub sub = record sub { status = completed }

abbrev pub completed_step : ℕ → DeploymentStep → DeploymentStep
completed_step now s = record (ended now completed s) { sub_steps = map completed_sub s.sub_steps }

abbrev pub complete_at : ℕ → DeploymentProgress → ℕ → DeploymentProgress
complete_at now p i =
    recount now p.current_step_index (record p { steps = modify (completed_step now) i p.steps })

unfoldable pub complete_step : ℕ → String → String → ProgressTracker → ProgressTracker
complete_step now id step_id t =
    on_step (λ p i. some (complete_at now p i)) (tell_both id) id step_id t

abbrev pub allows_retry : Option StepError → Bool
allows_retry none = false
allows_retry (some e) = e.retryable

-- `suggestion` is what `GetErrorSuggestion` returns. The percentage is not computed again.
abbrev pub fail_at : ℕ → Option StepError → DeploymentProgress → ℕ → DeploymentProgress
fail_at now suggestion p i = record p {
  steps = modify (λ s. record (ended now failed s) { error = suggestion }) i p.steps;
  can_retry = allows_retry suggestion;
}

abbrev pub tell_error :
    String → String → Option StepError → DeploymentProgress → ℕ → ProgressTracker → ProgressTracker
tell_error id step_id suggestion q i t = elim suggestion [
  | none ↦ tell_step id q i t
  | some e ↦ broadcast_error id step_id e (tell_step id q i t)
]

unfoldable pub fail_step :
    (String → String) → ℕ → String → String → Option String → ProgressTracker → ProgressTracker
fail_step lower now id step_id error t =
    let suggestion = get_error_suggestion lower error step_id in
    on_step (λ p i. some (fail_at now suggestion p i)) (tell_error id step_id suggestion) id step_id
      t

-- Whether an index is one of a step's sub-steps.
abbrev pub has_sub_step : ℤ → DeploymentStep → Bool
has_sub_step (negsuc j) s = false
has_sub_step (pos j) s = ltb j (length s.sub_steps)

abbrev pub guarded : ℤ → DeploymentProgress → ℕ → DeploymentProgress → Option DeploymentProgress
guarded j p i q = elim (at i p.steps) [
  | none ↦ none
  | some s ↦ if has_sub_step j s then some q else none
]

abbrev updated_sub : ℤ → ℤ → String → SubStep → SubStep
updated_sub current total details sub = record sub {
  status = in_progress;
  current = current;
  total = total;
  details = details;
}

abbrev pub update_sub_at : ℤ → ℤ → ℤ → String → DeploymentProgress → ℕ → DeploymentProgress
update_sub_at j current total details p i = record p {
  steps =
      modify
        (λ s. record s {
          current_sub_step = j;
          sub_steps =
              modify_before completed_sub (pos_part j)
                (modify (updated_sub current total details) (pos_part j) s.sub_steps);
        })
        i p.steps;
}

unfoldable pub update_sub_step :
    String → String → ℤ → ℤ → ℤ → String → ProgressTracker → ProgressTracker
update_sub_step id step_id j current total details t =
    on_step (λ p i. guarded j p i (update_sub_at j current total details p i)) (tell_step id) id
      step_id t

abbrev pub complete_sub_at : ℤ → DeploymentProgress → ℕ → DeploymentProgress
complete_sub_at j p i = record p {
  steps =
      modify (λ s. record s { sub_steps = modify completed_sub (pos_part j) s.sub_steps }) i
        p.steps;
}

unfoldable pub complete_sub_step : String → String → ℤ → ProgressTracker → ProgressTracker
complete_sub_step id step_id j t =
    on_step (λ p i. guarded j p i (complete_sub_at j p i)) (tell_step id) id step_id t

unfoldable pub add_resource : String → CreatedResource → ProgressTracker → ProgressTracker
add_resource id resource t = elim (lookup id t.progress) [
  | none ↦ t
  | some p ↦ store id (record p { resources_created = p.resources_created ++ (resource ∷ []) }) t
]

abbrev pub reset_sub : SubStep → SubStep
reset_sub sub = record sub { status = pending; details = "" }

abbrev pub reset : DeploymentStep → DeploymentStep
reset s = record s {
  status = pending;
  started_at = none;
  completed_at = none;
  elapsed_time_ms = pos 0;
  error = none;
  current_sub_step = pos 0;
  sub_steps = map reset_sub s.sub_steps;
}

abbrev pub reset_at : ℕ → DeploymentProgress → ℕ → DeploymentProgress
reset_at now p i =
    recount now i
      (record p { steps = modify_from reset i p.steps; current_step_index = i; can_retry = false })

unfoldable pub reset_step : ℕ → String → String → ProgressTracker → ProgressTracker
reset_step now id step_id t =
    on_step (λ p i. some (reset_at now p i)) (λ q i. broadcast_progress id q) id step_id t

-- Marks the step "ready". The steps of a deployment are never empty (`init_progress` makes ten).
abbrev pub all_complete : ℕ → DeploymentProgress → DeploymentProgress
all_complete now p = record p {
  steps = elim (step_id_to_index "ready" p.steps) [
    | none ↦ p.steps
    | some i ↦ modify (λ s. record s { status = completed; completed_at = some now }) i p.steps
  ];
  overall_progress = 100;
  estimated_remaining_ms = pos 0;
  current_step_index = length p.steps - 1;
}

unfoldable pub mark_complete : ℕ → String → ProgressTracker → ProgressTracker
mark_complete now id t = elim (lookup id t.progress) [
  | none ↦ t
  | some p ↦ broadcast_progress id (all_complete now p) (store id (all_complete now p) t)
]

unfoldable pub cleanup : String → ProgressTracker → ProgressTracker
cleanup id t = record t { progress = remove id t.progress }

unfoldable pub get_resources_for_cleanup : String → ProgressTracker → List CreatedResource
get_resources_for_cleanup id t = elim (lookup id t.progress) [
  | none ↦ []
  | some p ↦ p.resources_created
]
