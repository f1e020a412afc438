-- ===== src/Installer/Retry/Restarts.antt =====
-- What a retry resets, and that a second one is refused before the first has begun to run.
use Prim.Native.String.{String}
use text.Mathlib.TextEquality.{eq_iff}
use philotes.Common.{
  ℕ, ◌≡◌, ◌∙◌, subst, inl, inr, true, false, none, some, take, Bool-cases, Option-cases, arith,
  refl,
}
use philotes.Common.Maps.{lookup-put}
use philotes.Installer.Progress.{DeploymentStep, DeploymentProgress, step_id_to_index}
use philotes.Installer.Tracker.{ProgressTracker, at, get_progress, broadcast, broadcast_progress}
use philotes.Installer.Tracker.Steps.{reset_at, reset_step}
use philotes.Installer.Tracker.Plan.{IsPlan, IsTracked}
use philotes.Installer.Retry.{
  is_failed, any_in_progress, find_failed_step, can_retry_step, can_retry_deployment, RetryResult,
  refused, retrying, not_retryable, no_progress_found, deployment_active, retry_deployment,
}
use philotes.Installer.Retry.Renewal.{Renewed, reset_at-Renewed}
use philotes.Installer.Retry.Search.{
  find_failed_step-at, find_failed_step-reset, any_in_progress-reset, plan-index,
}

-- What a retry does to a deployment: the first failed step and those behind it are reset.
pub record Restarts (now : ℕ) (id step_id : String) (t u : ProgressTracker) : Type 0 where
  pub before : DeploymentProgress
  pub index : ℕ
  pub step : DeploymentStep
  pub was : get_progress id t ≡ some before
  pub can : can_retry_deployment (some before) ≡ true
  pub found : at index before.steps ≡ some step
  pub named : step.id ≡ step_id
  pub has_failed : is_failed step.status ≡ true
  pub first : find_failed_step (take index before.steps) ≡ none
  pub now_is : get_progress id u ≡ some (reset_at now before index)
  pub renewed : Renewed now before index (reset_at now before index)
  pub by_reset : reset_step now id step.id t ≡ u

reset_step-progress :
    (now : ℕ) (id step_id : String) (t : ProgressTracker) (p : DeploymentProgress) (i : ℕ)
    → get_progress id t ≡ some p
    → step_id_to_index step_id p.steps ≡ some i
    → get_progress id (reset_step now id step_id t) ≡ some (reset_at now p i)
unfolding reset_step broadcast_progress broadcast
reset_step-progress now id step_id t p i x y =
    ground (arith, x, y, lookup-put id id (reset_at now p i) t.progress, (eq_iff id id).1 refl)

find_failed-Restarts :
    (now : ℕ) (id step_id : String) (t u : ProgressTracker) (p : DeploymentProgress)
    (s : DeploymentStep)
    → IsPlan p
    → get_progress id t ≡ some p
    → any_in_progress p.steps ≡ false
    → find_failed_step p.steps ≡ some s
    → can_retry_step s.id ≡ true
    → s.id ≡ step_id
    → reset_step now id s.id t ≡ u
    → Restarts now id step_id t u
unfolding can_retry_deployment
find_failed-Restarts now id step_id t u p s plan x idle y can named e =
    let (i, found, failed_, first) = find_failed_step-at s p.steps y in
    record {
      before = p;
      index = i;
      step = s;
      was = x;
      can = ground (arith, idle, y, can);
      found = found;
      named = named;
      has_failed = failed_;
      first = first;
      now_is =
          subst (λ v. get_progress id v ≡ some (reset_at now p i)) e
            (reset_step-progress now id s.id t p i x (plan-index p i s plan found));
      renewed = reset_at-Renewed now p i;
      by_reset = e;
    }

pub retrying-Restarts :
    (now : ℕ) (id step_id : String) (t u : ProgressTracker)
    → IsTracked t
    → retry_deployment now id t ≡ retrying step_id u
    → Restarts now id step_id t u
unfolding retry_deployment
retrying-Restarts now id step_id t u h r = elim (Option-cases (get_progress id t)) [
  | inl x ↦ absurd (ground (arith, x, r))
  | inr (p, x) ↦ elim (Bool-cases (any_in_progress p.steps)) [
    | inl y ↦ absurd (ground (arith, x, y, r))
    | inr y ↦ elim (Option-cases (find_failed_step p.steps)) [
      | inl z ↦ absurd (ground (arith, x, y, z, r))
      | inr (s, z) ↦ elim (Bool-cases (can_retry_step s.id)) [
        | inr w ↦ absurd (ground (arith, x, y, z, w, r))
        | inl w ↦
            find_failed-Restarts now id step_id t u p s (h id p x) x y z w
              (ground (arith, x, y, z, w, r)) (ground (arith, x, y, z, w, r))
      ]
    ]
  ]
]

refused-when :
    (now : ℕ) (id : String) (u : ProgressTracker) (q : DeploymentProgress)
    → get_progress id u ≡ some q
    → any_in_progress q.steps ≡ false
    → find_failed_step q.steps ≡ none
    → retry_deployment now id u ≡ refused not_retryable
unfolding retry_deployment
refused-when now id u q x y z = rw (x, y, z, retry_deployment) refl

idle-of_can :
    (p : DeploymentProgress)
    → can_retry_deployment (some p) ≡ true
    → any_in_progress p.steps ≡ false
unfolding can_retry_deployment
idle-of_can p h = elim (Bool-cases (any_in_progress p.steps)) [
  | inl y ↦ absurd (ground (arith, y, h))
  | inr y ↦ y
]

-- The ways in which `RetryDeployment` ends.
pub data Retried (now : ℕ) (id : String) (t : ProgressTracker) : RetryResult → Type 0 where
  unknown : get_progress id t ≡ none → Retried now id t (refused no_progress_found)
  active :
      (p : DeploymentProgress)
      → get_progress id t ≡ some p
      → any_in_progress p.steps ≡ true
      → Retried now id t (refused deployment_active)
  not_failed :
      (p : DeploymentProgress)
      → get_progress id t ≡ some p
      → any_in_progress p.steps ≡ false
      → find_failed_step p.steps ≡ none
      → Retried now id t (refused not_retryable)
  forbidden :
      (p : DeploymentProgress) (s : DeploymentStep)
      → get_progress id t ≡ some p
      → find_failed_step p.steps ≡ some s
      → can_retry_step s.id ≡ false
      → Retried now id t (refused not_retryable)
  restarted :
      (step_id : String) (u : ProgressTracker)
      → Restarts now id step_id t u
      → ((later : ℕ) → retry_deployment later id u ≡ refused not_retryable)
      → Retried now id t (retrying step_id u)

reset-refused :
    (now later : ℕ) (id step_id : String) (t u : ProgressTracker)
    → Restarts now id step_id t u
    → retry_deployment later id u ≡ refused not_retryable
reset-refused now later id step_id t u r =
    refused-when later id u (reset_at now r.before r.index) r.now_is
      (any_in_progress-reset r.index r.before.steps (idle-of_can r.before r.can))
      (find_failed_step-reset r.index r.before.steps ∙ r.first)

-- In a tracker of deployments with their plan, `RetryDeployment` ends in one of five ways. It is refused
-- for an unknown deployment, for one with a step in progress, for one without a failed step, and if its
-- first failed step may not be retried. Otherwise that step and all behind it are pending again with
-- their sub-steps, without times and errors, those before are as they were, the step is the current one,
-- and the percentage and the time that remains are those of the new steps; another `RetryDeployment` is
-- refused until something else happens.
pub retry_deployment-Retried :
    (now : ℕ) (id : String) (t : ProgressTracker)
    → IsTracked t
    → Retried now id t (retry_deployment now id t)
unfolding retry_deployment
retry_deployment-Retried now id t h = elim (Option-cases (get_progress id t)) [
  | inl x ↦ rw (x, retry_deployment) (unknown x)
  | inr (p, x) ↦ elim (Bool-cases (any_in_progress p.steps)) [
    | inl y ↦ rw (x, y, retry_deployment) (active p x y)
    | inr y ↦ elim (Option-cases (find_failed_step p.steps)) [
      | inl z ↦ rw (x, y, z, retry_deployment) (not_failed p x y z)
      | inr (s, z) ↦ elim (Bool-cases (can_retry_step s.id)) [
        | inr w ↦ rw (x, y, z, w, retry_deployment) (forbidden p s x z w)
        | inl w ↦
            let u = reset_step now id s.id t in
            let r = find_failed-Restarts now id s.id t u p s (h id p x) x y z w refl refl in
            rw (x, y, z, w, retry_deployment)
              (restarted s.id u r (λ later. reset-refused now later id s.id t u r))
      ]
    ]
  ]
]
