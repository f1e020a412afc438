-- ===== src/Installer/Tests.antt =====
-- Runs of the installer on small inputs.
use Prim.Native.String.{String}
use philotes.Common.{ℕ, true, false, Option, none, some, List, [], ◌∷◌, refl, ◌≡◌}
use philotes.Common.Int.{pos}
use philotes.Common.Maps.{put, lookup}
use philotes.Installer.Errors.{StepError}
use philotes.Installer.Errors.Suggestions.{
  get_error_suggestion, is_retryable_error, suggestion-agrees,
}
use philotes.Installer.Progress.{
  DeploymentProgress, calculate_overall_progress, step_id_to_index, get_deployment_steps,
}
use philotes.Installer.Tracker.{
  broadcast_step_update, broadcast_error, ProgressTracker, new_progress_tracker, init_progress,
  get_progress,
}
use philotes.Installer.Tracker.Plan.{IsTracked}
use philotes.Installer.Tracker.Steps.{reset_step, start_step, complete_step, fail_step}
use philotes.Installer.Tracker.Calls.{
  call, Call, init, start, complete, fail, run_calls, keeps-IsTracked, run_calls-IsTracked,
  new-IsTracked,
}
use philotes.Installer.Retry.{
  find_failed_step, any_in_progress, retry_deployment, retrying, refused, deployment_active,
  can_retry_deployment,
}
use philotes.Installer.Retry.Restarts.{Retried, retry_deployment-Retried}
use philotes.Installer.Retry.Stuck.{failed_retry-stuck}
use philotes.Installer.Runner.{
  map_resource_type_to_step, Pulumi, start_deployment, run_from, resource_pre,
}

abbrev same : String → String
same s = s

abbrev worker : ℕ → String
worker i = "worker"

abbrev three : ℕ
three = 3

-- Everything up to k3s is done, and k3s has failed.
abbrev calls : List (ℕ × Call)
calls =
    (0, init "d" "hetzner" (pos 2))
    ∷ (1, start "d" "auth")
    ∷ (2, complete "d" "auth")
    ∷ (3, start "d" "k3s")
    ∷ (4, fail "d" "k3s" (some "ssh: connection closed"))
    ∷ []

abbrev failed_run : ProgressTracker
failed_run = run_calls same worker calls (new_progress_tracker true)

abbrev percent : Option DeploymentProgress → ℕ
percent none = 1000
percent (some p) = p.overall_progress

percent_failed : percent (get_progress "d" failed_run) ≡ 10
unfolding run_calls lookup call fail_step start_step complete_step init_progress put
    step_id_to_index get_deployment_steps broadcast_step_update get_error_suggestion broadcast_error
    calculate_overall_progress
percent_failed = refl

can_failed : can_retry_deployment (get_progress "d" failed_run) ≡ true
unfolding run_calls can_retry_deployment lookup call fail_step start_step complete_step
    init_progress put step_id_to_index get_deployment_steps broadcast_step_update
    get_error_suggestion broadcast_error any_in_progress find_failed_step
can_failed = refl

abbrev refused_stack : Pulumi
refused_stack = record {
  stack_error = some "timeout";
  configure_error = none;
  events = [];
  up_error = none;
}

abbrev reset_run : ProgressTracker
reset_run = reset_step 5 "d" "k3s" failed_run

failed_run-IsTracked : IsTracked failed_run
failed_run-IsTracked =
    keeps-IsTracked same worker calls (new_progress_tracker true) (new-IsTracked true)

retries : retry_deployment 5 "d" failed_run ≡ retrying "k3s" reset_run
unfolding retry_deployment lookup run_calls call fail_step start_step complete_step init_progress
    put step_id_to_index get_deployment_steps broadcast_step_update get_error_suggestion
    broadcast_error any_in_progress find_failed_step
retries = refl

run_calls-IsTracked_example : IsTracked failed_run
run_calls-IsTracked_example = run_calls-IsTracked same worker true calls

retry_deployment-Retried_example : Retried 5 "d" failed_run (retry_deployment 5 "d" failed_run)
retry_deployment-Retried_example = retry_deployment-Retried 5 "d" failed_run failed_run-IsTracked

failed_retry-stuck_example :
    retry_deployment 7 "d" (run_from same 6 "d" "k3s" refused_stack reset_run)
    ≡ refused deployment_active
failed_retry-stuck_example =
    failed_retry-stuck same 5 6 7 "d" "k3s" "timeout" refused_stack failed_run reset_run
      failed_run-IsTracked retries refl refl refl

suggestion_agrees_on_ssl :
    (get_error_suggestion same none "ssl" ≡ none)
    × (e : StepError) × (get_error_suggestion same (some "acme") "ssl" ≡ some e)
    × (e.retryable ≡ is_retryable_error same (some "acme"))
    × (e.details ≡ "acme")
suggestion_agrees_on_ssl = suggestion-agrees same "ssl" "acme"

-- The pattern of quotas comes first: a rate limit that is reached is no error to retry.
rate_limit : is_retryable_error same (some "rate limit reached") ≡ false
unfolding is_retryable_error
rate_limit = refl

rate_limited : is_retryable_error same (some "too many requests") ≡ true
unfolding is_retryable_error
rate_limited = refl

-- A resource of another kind completes the step, and then the failure is of no step.
abbrev lost : Pulumi
lost = record {
  stack_error = none;
  configure_error = none;
  events = resource_pre "random:index/id:Id" ∷ [];
  up_error = some "timeout";
}

lost_failure :
    can_retry_deployment (
      get_progress "d"
        (start_deployment same worker 0 "d" "ovh" (pos 1) lost (new_progress_tracker false)))
    ≡ false
unfolding can_retry_deployment start_deployment lookup map_resource_type_to_step start_step
    complete_step init_progress put step_id_to_index get_deployment_steps broadcast_step_update
    any_in_progress find_failed_step
lost_failure = refl
