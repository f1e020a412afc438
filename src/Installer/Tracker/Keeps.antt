-- ===== src/Installer/Tracker/Keeps.antt =====
-- What keeps the plan: a change of a step, and what is sent.
use Prim.Native.String.{String}
use text.Mathlib.Text.{◌==◌ as str_eq}
use philotes.Common.{
  ℕ, ◌<◌, ◌≡◌, sym, subst, ◌∙◌, inl, inr, Option, none, some, List, Bool-cases, Option-cases, arith,
  refl,
}
use philotes.Common.Int.{ℤ}
use philotes.Common.Maps.{lookup, lookup-put}
use philotes.Installer.Errors.{StepError}
use philotes.Installer.Progress.{DeploymentStep, DeploymentProgress, step_id_to_index}
use philotes.Installer.Tracker.{
  ProgressTracker, at, on_step, store, broadcast, broadcast_progress, broadcast_step_update,
  broadcast_error,
}
use philotes.Installer.Tracker.Steps.{tell_step, tell_both, tell_error, guarded, has_sub_step}
use philotes.Installer.Tracker.Plan.{ids, IsPlan, IsTracked, length-plan, step_id_to_index-lt}

-- What is sent does not touch the progress.
pub tell_step-progress :
    (id : String) (q : DeploymentProgress) (i : ℕ) (t : ProgressTracker)
    → (tell_step id q i t).progress ≡ t.progress
unfolding broadcast_step_update broadcast
tell_step-progress id q i t = elim (Option-cases (at i q.steps)) [
  | inl x ↦ rw (x, tell_step) refl
  | inr (s, x) ↦ rw (x, tell_step) refl
]

pub tell_both-progress :
    (id : String) (q : DeploymentProgress) (i : ℕ) (t : ProgressTracker)
    → (tell_both id q i t).progress ≡ t.progress
unfolding broadcast_progress broadcast
tell_both-progress id q i t = tell_step-progress id q i t

pub tell_error-progress :
    (id step_id : String) (s : Option StepError) (q : DeploymentProgress) (i : ℕ)
    (t : ProgressTracker)
    → (tell_error id step_id s q i t).progress ≡ t.progress
unfolding broadcast_error broadcast
tell_error-progress id step_id none q i t = tell_step-progress id q i t
tell_error-progress id step_id (some e) q i t = tell_step-progress id q i t

pub store-IsTracked :
    (id : String) (p : DeploymentProgress) (t : ProgressTracker)
    → IsPlan p
    → IsTracked t
    → IsTracked (store id p t)
store-IsTracked id p t new old k q h = elim (Bool-cases (str_eq id k)) [
  | inl same ↦
      let e : p ≡ q = ground (arith, same, lookup-put id k p t.progress, h) in
      subst (λ x. IsPlan x) e new
  | inr other ↦ old k q (ground (arith, other, lookup-put id k p t.progress, h))
]

pub same-IsTracked : (t u : ProgressTracker) → u.progress ≡ t.progress → IsTracked t → IsTracked u
same-IsTracked t u e h k q x = h k q (rw (sym e) x)

-- A method that changes a step keeps the plan, if its change does.
pub on_step-IsTracked :
    (change : DeploymentProgress → ℕ → Option DeploymentProgress)
    (tell : DeploymentProgress → ℕ → ProgressTracker → ProgressTracker) (id step_id : String)
    (t : ProgressTracker)
    → ((p q : DeploymentProgress) (i : ℕ) → IsPlan p → i < 10 → change p i ≡ some q → IsPlan q)
    → ((q : DeploymentProgress) (i : ℕ) (u : ProgressTracker) → (tell q i u).progress ≡ u.progress)
    → IsTracked t
    → IsTracked (on_step change tell id step_id t)
on_step-IsTracked change tell id step_id t keeps tells h =
    elim (Option-cases (lookup id t.progress)) [
      | inl x ↦ rw (x, on_step) h
      | inr (p, x) ↦ elim (Option-cases (step_id_to_index step_id p.steps)) [
        | inl y ↦ rw (x, y, on_step) h
        | inr (i, y) ↦ elim (Option-cases (change p i)) [
          | inl z ↦ rw (x, y, z, on_step) h
          | inr (q, z) ↦
              let plan = h id p x in
              let bound : i < 10 =
                rw (sym (length-plan p.steps plan.plan))
                  (step_id_to_index-lt step_id p.steps i y) in
              rw (x, y, z, on_step)
                (same-IsTracked (store id q t) (tell q i (store id q t)) (tells q i (store id q t))
                  (store-IsTracked id q t (keeps p q i plan bound z) h))
        ]
      ]
    ]

-- The same for a change that is always made.
pub always-IsTracked :
    (change : DeploymentProgress → ℕ → DeploymentProgress)
    (tell : DeploymentProgress → ℕ → ProgressTracker → ProgressTracker) (id step_id : String)
    (t : ProgressTracker)
    → ((p : DeploymentProgress) (i : ℕ) → IsPlan p → i < 10 → IsPlan (change p i))
    → ((q : DeploymentProgress) (i : ℕ) (u : ProgressTracker) → (tell q i u).progress ≡ u.progress)
    → IsTracked t
    → IsTracked (on_step (λ p i. some (change p i)) tell id step_id t)
always-IsTracked change tell id step_id t keeps tells h =
    on_step-IsTracked (λ p i. some (change p i)) tell id step_id t
      (λ p q i plan bound e. subst (λ x. IsPlan x) (ground (arith, e)) (keeps p i plan bound)) tells
      h

-- A change of the steps alone that keeps their IDs.
pub steps-IsPlan :
    (p : DeploymentProgress) (steps : List DeploymentStep)
    → ids steps ≡ ids p.steps
    → IsPlan p
    → IsPlan (record p { steps = steps })
steps-IsPlan p steps e plan = record {
  plan = e ∙ plan.plan;
  current = plan.current;
  percent = plan.percent;
}

pub guarded-some : (j : ℤ) (p q r : DeploymentProgress) (i : ℕ) → guarded j p i q ≡ some r → q ≡ r
guarded-some j p q r i h = elim (Option-cases (at i p.steps)) [
  | inl x ↦ absurd (ground (arith, x, h))
  | inr (s, x) ↦ elim (Bool-cases (has_sub_step j s)) [
    | inl y ↦ ground (arith, x, y, h)
    | inr y ↦ absurd (ground (arith, x, y, h))
  ]
]

-- A change of a sub-step, behind its guard.
pub guarded-IsTracked :
    (j : ℤ) (change : DeploymentProgress → ℕ → DeploymentProgress) (id step_id : String)
    (t : ProgressTracker)
    → ((p : DeploymentProgress) (i : ℕ) → IsPlan p → IsPlan (change p i))
    → IsTracked t
    → IsTracked (on_step (λ p i. guarded j p i (change p i)) (tell_step id) id step_id t)
guarded-IsTracked j change id step_id t keeps h =
    on_step-IsTracked (λ p i. guarded j p i (change p i)) (tell_step id) id step_id t
      (λ p q i plan bound e.
        subst (λ x. IsPlan x) (guarded-some j p (change p i) q i e) (keeps p i plan))
      (tell_step-progress id) h
