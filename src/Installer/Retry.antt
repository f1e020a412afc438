-- ===== src/Installer/Retry.antt =====
-- internal/installer/retry.go: whether a deployment can be retried, and what a retry does at first.
pub mod Search
pub mod Renewal
pub mod Restarts
pub mod Stuck
use Prim.Native.String.{String, ◌++◌ as ◌joined◌}
use text.Mathlib.Text.{◌==◌ as str_eq}
use philotes.Common.{
  ℕ, suc, Bool, true, false, ◌&&◌, Option, none, some, List, [], ◌∷◌, if◌then◌else◌, is_some,
}
use philotes.Common.Maps.{lookup}
use philotes.Installer.Errors.{StepError}
use philotes.Installer.Progress.{
  StepStatus, pending, in_progress, completed, failed, DeploymentStep, DeploymentProgress,
}
use philotes.Installer.Tracker.{ProgressTracker, get_progress}
use philotes.Installer.Tracker.Steps.{reset_step}

abbrev retryable_steps : List (String × Bool)
retryable_steps =
    ("auth", true)
    ∷ ("network", true)
    ∷ ("compute", true)
    ∷ ("k3s", true)
    ∷ ("storage", true)
    ∷ ("catalog", true)
    ∷ ("philotes", true)
    ∷ ("health", true)
    ∷ ("ssl", true)
    ∷ ("ready", false)
    ∷ []

unfoldable pub can_retry_step : String → Bool
can_retry_step step_id = elim (lookup step_id retryable_steps) [
  | none ↦ false
  | some retryable ↦ retryable
]

abbrev pub is_in_progress : StepStatus → Bool
is_in_progress in_progress = true
is_in_progress _ = false

abbrev pub is_failed : StepStatus → Bool
is_failed failed = true
is_failed _ = false

-- The loops over the steps.
unfoldable pub any_in_progress : List DeploymentStep → Bool
any_in_progress [] = false
any_in_progress (s ∷ ss) =
    let rest = any_in_progress ss in if is_in_progress s.status then true else rest

unfoldable pub find_failed_step : List DeploymentStep → Option DeploymentStep
find_failed_step [] = none
find_failed_step (s ∷ ss) =
    let rest = find_failed_step ss in if is_failed s.status then some s else rest

unfoldable pub can_retry_deployment : Option DeploymentProgress → Bool
unfolding can_retry_step
can_retry_deployment none = false
can_retry_deployment (some p) =
    if any_in_progress p.steps
    then false
    else elim (find_failed_step p.steps) [ none ↦ false | some s ↦ can_retry_step s.id ]

pub data RetryError : Type 0 where
  no_progress_found not_retryable deployment_active : RetryError

pub data RetryResult : Type 0 where
  refused : RetryError → RetryResult
  retrying : String → ProgressTracker → RetryResult

-- `RetryDeployment` up to the start of its goroutine, with the step from which it starts.
unfoldable pub retry_deployment : ℕ → String → ProgressTracker → RetryResult
unfolding can_retry_step
retry_deployment now id t = elim (get_progress id t) [
  | none ↦ refused no_progress_found
  | some p ↦
      if any_in_progress p.steps
      then refused deployment_active
      else elim (find_failed_step p.steps) [
        | none ↦ refused not_retryable
        | some s ↦
            if can_retry_step s.id
            then retrying s.id (reset_step now id s.id t)
            else refused not_retryable
      ]
]

pub record RetryInfo : Type 0 where
  pub can_retry : Bool
  pub failed_step : Option DeploymentStep
  pub reason : String

abbrev no_retry : Option DeploymentStep → String → RetryInfo
no_retry step reason = record { can_retry = false; failed_step = step; reason = reason }

abbrev last_step : DeploymentStep → List DeploymentStep → DeploymentStep
last_step s [] = s
last_step s (s2 ∷ ss) = last_step s2 ss

abbrev is_completed : StepStatus → Bool
is_completed completed = true
is_completed _ = false

-- Without a failed step. Without any step the index panics, and there is no answer.
no_failed_step : List DeploymentStep → Option RetryInfo
no_failed_step [] = none
no_failed_step (s ∷ ss) =
    if is_completed (last_step s ss).status
    then some (no_retry none "Deployment completed successfully")
    else some (no_retry none "No failed step found")

first_suggestion : StepError → String
first_suggestion e = elim (e.suggestions) [ [] ↦ "The error is not retryable" | r ∷ _ ↦ r ]

-- With one, `FailedStepID` being its ID.
failed_info : DeploymentStep → RetryInfo
unfolding can_retry_step first_suggestion
failed_info s =
    let can : RetryInfo = record {
      can_retry = true;
      failed_step = some s;
      reason = "Deployment can be retried from: " joined s.name;
    } in
    if can_retry_step s.id
    then elim (s.error) [
      | none ↦ can
      | some e ↦ if e.retryable then can else no_retry (some s) (first_suggestion e)
    ]
    else no_retry (some s) "The failed step cannot be retried"

unfoldable pub get_retry_info : String → ProgressTracker → Option RetryInfo
unfolding no_failed_step failed_info
get_retry_info id t = elim (get_progress id t) [
  | none ↦ some (no_retry none "No progress information found for deployment")
  | some p ↦
      if any_in_progress p.steps
      then some (no_retry none "Deployment is still in progress")
      else elim (find_failed_step p.steps) [
        | none ↦ no_failed_step p.steps
        | some s ↦ some (failed_info s)
      ]
]
