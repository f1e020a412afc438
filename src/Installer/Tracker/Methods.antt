-- ===== src/Installer/Tracker/Methods.antt =====
-- Every method of the tracker keeps the plan.
use Prim.Native.String.{String}
use philotes.Common.{ℕ, ◌∙◌, inl, inr, Option, Option-cases, arith, refl}
use philotes.Common.Int.{ℤ}
use philotes.Common.Maps.{lookup, lookup-remove}
use philotes.Installer.Errors.Suggestions.{get_error_suggestion}
use philotes.Installer.Progress.{
  CreatedResource, DeploymentProgress, step_id_to_index, get_deployment_steps,
}
use philotes.Installer.Progress.Bounds.{overall_progress-bounds}
use philotes.Installer.Tracker.{ProgressTracker, broadcast, broadcast_progress, init_progress}
use philotes.Installer.Tracker.Steps.{
  start_at, start_step, complete_at, complete_step, fail_at, fail_step, update_sub_at,
  update_sub_step, complete_sub_at, complete_sub_step, add_resource, reset_at, reset_step,
  all_complete, mark_complete, cleanup, tell_both, tell_error,
}
use philotes.Installer.Tracker.Plan.{IsPlan, IsTracked, ids-modify, ids-modify_from, length-plan}
use philotes.Installer.Tracker.Keeps.{
  tell_both-progress, tell_error-progress, store-IsTracked, always-IsTracked, steps-IsPlan,
  guarded-IsTracked,
}

pub start_step-IsTracked :
    (now : ℕ) (id step_id : String) (t : ProgressTracker)
    → IsTracked t
    → IsTracked (start_step now id step_id t)
unfolding start_step
start_step-IsTracked now id step_id t h =
    always-IsTracked (start_at now) (tell_both id) id step_id t
      (λ p i plan bound. record {
        plan = ids-modify _ i p.steps (λ s. refl) ∙ plan.plan;
        current = bound;
        percent = (overall_progress-bounds _).0;
      })
      (tell_both-progress id) h

pub complete_step-IsTracked :
    (now : ℕ) (id step_id : String) (t : ProgressTracker)
    → IsTracked t
    → IsTracked (complete_step now id step_id t)
unfolding complete_step
complete_step-IsTracked now id step_id t h =
    always-IsTracked (complete_at now) (tell_both id) id step_id t
      (λ p i plan bound. record {
        plan = ids-modify _ i p.steps (λ s. refl) ∙ plan.plan;
        current = plan.current;
        percent = (overall_progress-bounds _).0;
      })
      (tell_both-progress id) h

pub fail_step-IsTracked :
    (lower : String → String) (now : ℕ) (id step_id : String) (error : Option String)
    (t : ProgressTracker)
    → IsTracked t
    → IsTracked (fail_step lower now id step_id error t)
unfolding fail_step
fail_step-IsTracked lower now id step_id error t h =
    let suggestion = get_error_suggestion lower error step_id in
    always-IsTracked (fail_at now suggestion) (tell_error id step_id suggestion) id step_id t
      (λ p i plan bound. record {
        plan = ids-modify _ i p.steps (λ s. refl) ∙ plan.plan;
        current = plan.current;
        percent = plan.percent;
      })
      (tell_error-progress id step_id suggestion) h

pub update_sub_step-IsTracked :
    (id step_id : String) (j current total : ℤ) (details : String) (t : ProgressTracker)
    → IsTracked t
    → IsTracked (update_sub_step id step_id j current total details t)
unfolding update_sub_step
update_sub_step-IsTracked id step_id j current total details t h =
    guarded-IsTracked j (update_sub_at j current total details) id step_id t
      (λ p i plan. steps-IsPlan p _ (ids-modify _ i p.steps (λ s. refl)) plan) h

pub complete_sub_step-IsTracked :
    (id step_id : String) (j : ℤ) (t : ProgressTracker)
    → IsTracked t
    → IsTracked (complete_sub_step id step_id j t)
unfolding complete_sub_step
complete_sub_step-IsTracked id step_id j t h =
    guarded-IsTracked j (complete_sub_at j) id step_id t
      (λ p i plan. steps-IsPlan p _ (ids-modify _ i p.steps (λ s. refl)) plan) h

pub reset_step-IsTracked :
    (now : ℕ) (id step_id : String) (t : ProgressTracker)
    → IsTracked t
    → IsTracked (reset_step now id step_id t)
unfolding reset_step broadcast_progress broadcast
reset_step-IsTracked now id step_id t h =
    always-IsTracked (reset_at now) (λ q i. broadcast_progress id q) id step_id t
      (λ p i plan bound. record {
        plan = ids-modify_from _ i p.steps (λ s. refl) ∙ plan.plan;
        current = bound;
        percent = (overall_progress-bounds _).0;
      })
      (λ q i u. refl) h

pub add_resource-IsTracked :
    (id : String) (resource : CreatedResource) (t : ProgressTracker)
    → IsTracked t
    → IsTracked (add_resource id resource t)
unfolding add_resource
add_resource-IsTracked id resource t h = elim (Option-cases (lookup id t.progress)) [
  | inl x ↦ rw (x, add_resource) h
  | inr (p, x) ↦
      rw (x, add_resource)
        (store-IsTracked id _ t
          (let plan = h id p x in
            record { plan = plan.plan; current = plan.current; percent = plan.percent })
          h)
]

pub all_complete-IsPlan :
    (now : ℕ) (p : DeploymentProgress) → IsPlan p → IsPlan (all_complete now p)
all_complete-IsPlan now p plan =
    let count = length-plan p.steps plan.plan in
    elim (Option-cases (step_id_to_index "ready" p.steps)) [
      | inl x ↦ record {
        plan = rw (x, all_complete) (plan.plan);
        current = omega (arith, count);
        percent = omega arith;
      }
      | inr (i, x) ↦ record {
        plan = rw (x, all_complete) (ids-modify _ i p.steps (λ s. refl) ∙ plan.plan);
        current = omega (arith, count);
        percent = omega arith;
      }
    ]

pub mark_complete-IsTracked :
    (now : ℕ) (id : String) (t : ProgressTracker) → IsTracked t → IsTracked (mark_complete now id t)
unfolding mark_complete broadcast_progress broadcast
mark_complete-IsTracked now id t h = elim (Option-cases (lookup id t.progress)) [
  | inl x ↦ rw (x, mark_complete) h
  | inr (p, x) ↦
      rw (x, mark_complete)
        (store-IsTracked id (all_complete now p) t (all_complete-IsPlan now p (h id p x)) h)
]

pub cleanup-IsTracked : (id : String) (t : ProgressTracker) → IsTracked t → IsTracked (cleanup id t)
unfolding cleanup
cleanup-IsTracked id t h k q e = h k q (lookup-remove id k q t.progress e)

pub init_progress-IsTracked :
    (now : ℕ) (worker_id : ℕ → String) (id provider : String) (workers : ℤ) (t : ProgressTracker)
    → IsTracked t
    → IsTracked (init_progress now worker_id id provider workers t)
unfolding init_progress broadcast_progress broadcast get_deployment_steps
init_progress-IsTracked now worker_id id provider workers t h =
    store-IsTracked id _ t (record { plan = refl; current = omega arith; percent = omega arith }) h
