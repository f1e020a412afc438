-- ===== src/Installer/Retry/Stuck.antt =====
-- A retry that fails early leaves its step in progress.
use Prim.Native.String.{String}
use text.Mathlib.Text.{◌==◌ as str_eq}
use text.Mathlib.TextEquality.{eq_iff}
use philotes.Common.{
  ℕ, zero, suc, ◌≡◌, sym, ap, ◌∙◌, subst, inl, inr, true, false, Option, none, some, List, [], ◌∷◌,
  ◌==◌, drop, Option-cases, arith, refl, if◌then◌else◌,
}
use philotes.Common.Maps.{lookup, lookup-put}
use philotes.Installer.Errors.Suggestions.{get_error_suggestion}
use philotes.Installer.Progress.{in_progress, DeploymentStep, DeploymentProgress, step_id_to_index}
use philotes.Installer.Tracker.{ProgressTracker, at, modify, modify_from, on_step, store}
use philotes.Installer.Tracker.Steps.{
  start_at, start_step, complete_at, complete_step, fail_at, fail_step, tell_both, tell_error,
  reset, reset_at,
}
use philotes.Installer.Tracker.Plan.{step_ids, ids, IsPlan, IsTracked}
use philotes.Installer.Tracker.Keeps.{tell_both-progress, tell_error-progress}
use philotes.Installer.Tracker.Methods.{
  start_step-IsTracked, complete_step-IsTracked, reset_step-IsTracked,
}
use philotes.Installer.Retry.{
  is_in_progress, any_in_progress, refused, retrying, deployment_active, retry_deployment,
}
use philotes.Installer.Retry.Search.{plan-index}
use philotes.Installer.Retry.Restarts.{retrying-Restarts}
use philotes.Installer.Runner.{Pulumi, deploy_with_tracker, finish_run, run_from}

index_in : String → List String → Option ℕ
index_in x [] = none
index_in x (y ∷ ys) =
    let rest = index_in x ys in
    if str_eq y x then some 0 else elim rest [ none ↦ none | some i ↦ some (suc i) ]

index-ids :
    (x : String) (steps : List DeploymentStep) → step_id_to_index x steps ≡ index_in x (ids steps)
unfolding step_id_to_index index_in
index-ids x [] = refl
index-ids x (s ∷ ss) = rw (index-ids x ss) refl

plan-index_in :
    (x : String) (p : DeploymentProgress)
    → IsPlan p
    → step_id_to_index x p.steps ≡ index_in x step_ids
plan-index_in x p plan = index-ids x p.steps ∙ rw (plan.plan) refl

at-modify :
    (f : DeploymentStep → DeploymentStep) (i : ℕ) (s : DeploymentStep) (steps : List DeploymentStep)
    → at i steps ≡ some s
    → at i (modify f i steps) ≡ some (f s)
at-modify f i s [] h = absurd (ground (arith, h))
at-modify f zero s (s0 ∷ ss) h = ap (λ x. some (f x)) (ground (arith, h))
at-modify f (suc i) s (s0 ∷ ss) h = at-modify f i s ss h

at-modify_other :
    (f : DeploymentStep → DeploymentStep) (i j : ℕ) (steps : List DeploymentStep)
    → (i == j) ≡ false
    → at j (modify f i steps) ≡ at j steps
at-modify_other f i j [] e = refl
at-modify_other f zero zero (s ∷ ss) e = absurd (ground (arith, e))
at-modify_other f zero (suc j) (s ∷ ss) e = refl
at-modify_other f (suc i) zero (s ∷ ss) e = refl
at-modify_other f (suc i) (suc j) (s ∷ ss) e = at-modify_other f i j ss (ground (arith, e))

any_in_progress-at :
    (i : ℕ) (s : DeploymentStep) (steps : List DeploymentStep)
    → at i steps ≡ some s
    → is_in_progress s.status ≡ true
    → any_in_progress steps ≡ true
unfolding any_in_progress
any_in_progress-at i s [] h w = absurd (ground (arith, h))
any_in_progress-at zero s (s0 ∷ ss) h w = ground (arith, h, w)
any_in_progress-at (suc i) s (s0 ∷ ss) h w = ground (arith, any_in_progress-at i s ss h w)

-- The i-th step of a deployment is in progress.
record IsWorking (id : String) (i : ℕ) (t : ProgressTracker) : Type 0 where
  pub progress : DeploymentProgress
  pub step : DeploymentStep
  pub tracked : lookup id t.progress ≡ some progress
  pub found : at i progress.steps ≡ some step
  pub works : is_in_progress step.status ≡ true

always-progress :
    (change : DeploymentProgress → ℕ → DeploymentProgress)
    (tell : DeploymentProgress → ℕ → ProgressTracker → ProgressTracker) (id step_id : String)
    (t : ProgressTracker) (p : DeploymentProgress) (i : ℕ)
    → lookup id t.progress ≡ some p
    → step_id_to_index step_id p.steps ≡ some i
    → ((q : DeploymentProgress) (i : ℕ) (u : ProgressTracker) → (tell q i u).progress ≡ u.progress)
    → lookup id (on_step (λ p i. some (change p i)) tell id step_id t).progress ≡ some (change p i)
always-progress change tell id step_id t p i x y tells =
    rw (x, y, on_step)
      (rw (tells (change p i) i (store id (change p i) t))
        (ground (arith, lookup-put id id (change p i) t.progress, (eq_iff id id).1 refl)))

-- A method that changes another step leaves the step in progress.
other-IsWorking :
    (change : DeploymentProgress → ℕ → DeploymentProgress)
    (tell : DeploymentProgress → ℕ → ProgressTracker → ProgressTracker)
    (f : DeploymentStep → DeploymentStep) (id step_id : String) (t : ProgressTracker) (i j : ℕ)
    → ((p : DeploymentProgress) → (change p j).steps ≡ modify f j p.steps)
    → ((q : DeploymentProgress) (i : ℕ) (u : ProgressTracker) → (tell q i u).progress ≡ u.progress)
    → index_in step_id step_ids ≡ some j
    → (j == i) ≡ false
    → IsTracked t
    → IsWorking id i t
    → IsWorking id i (on_step (λ p i. some (change p i)) tell id step_id t)
other-IsWorking change tell f id step_id t i j changes tells index other h w = record {
  progress = change w.progress j;
  step = w.step;
  tracked =
      let plan = h id w.progress w.tracked in
      always-progress change tell id step_id t w.progress j w.tracked
        (plan-index_in step_id w.progress plan ∙ index) tells;
  found = rw (changes w.progress) (at-modify_other f j i w.progress.steps other ∙ w.found);
  works = w.works;
}

start_other-IsWorking :
    (now : ℕ) (id step_id : String) (t : ProgressTracker) (i j : ℕ)
    → index_in step_id step_ids ≡ some j
    → (j == i) ≡ false
    → IsTracked t
    → IsWorking id i t
    → IsWorking id i (start_step now id step_id t)
unfolding start_step
start_other-IsWorking now id step_id t i j =
    other-IsWorking (start_at now) (tell_both id) _ id step_id t i j (λ p. refl)
      (tell_both-progress id)

complete_other-IsWorking :
    (now : ℕ) (id step_id : String) (t : ProgressTracker) (i j : ℕ)
    → index_in step_id step_ids ≡ some j
    → (j == i) ≡ false
    → IsTracked t
    → IsWorking id i t
    → IsWorking id i (complete_step now id step_id t)
unfolding complete_step
complete_other-IsWorking now id step_id t i j =
    other-IsWorking (complete_at now) (tell_both id) _ id step_id t i j (λ p. refl)
      (tell_both-progress id)

fail_other-IsWorking :
    (lower : String → String) (now : ℕ) (id step_id : String) (error : Option String)
    (t : ProgressTracker) (i j : ℕ)
    → index_in step_id step_ids ≡ some j
    → (j == i) ≡ false
    → IsTracked t
    → IsWorking id i t
    → IsWorking id i (fail_step lower now id step_id error t)
unfolding fail_step
fail_other-IsWorking lower now id step_id error t i j =
    let suggestion = get_error_suggestion lower error step_id in
    other-IsWorking (fail_at now suggestion) (tell_error id step_id suggestion) _ id step_id t i j
      (λ p. refl) (tell_error-progress id step_id suggestion)

started-IsWorking :
    (now : ℕ) (id step_id : String) (t : ProgressTracker) (p : DeploymentProgress) (i : ℕ)
    (s : DeploymentStep)
    → lookup id t.progress ≡ some p
    → step_id_to_index step_id p.steps ≡ some i
    → at i p.steps ≡ some s
    → IsWorking id i (start_step now id step_id t)
unfolding start_step
started-IsWorking now id step_id t p i s x y found = record {
  progress = start_at now p i;
  step = record s { status = in_progress; started_at = some now };
  tracked =
      always-progress (start_at now) (tell_both id) id step_id t p i x y (tell_both-progress id);
  found =
      at-modify (λ s. record s { status = in_progress; started_at = some now }) i s p.steps found;
  works = refl;
}

working-refused :
    (now : ℕ) (id : String) (i : ℕ) (t : ProgressTracker)
    → IsWorking id i t
    → retry_deployment now id t ≡ refused deployment_active
unfolding retry_deployment
working-refused now id i t w =
    rw (w.tracked, any_in_progress-at i w.step w.progress.steps w.found w.works, retry_deployment)
      refl

at-modify_from :
    (f : DeploymentStep → DeploymentStep) (i : ℕ) (s : DeploymentStep) (steps : List DeploymentStep)
    → at i steps ≡ some s
    → at i (modify_from f i steps) ≡ some (f s)
at-modify_from f i s [] h = absurd (ground (arith, h))
at-modify_from f zero s (s0 ∷ ss) h = ap (λ x. some (f x)) (ground (arith, h))
at-modify_from f (suc i) s (s0 ∷ ss) h = at-modify_from f i s ss h

index_in-behind :
    (x y : String) (ys : List String) (i : ℕ)
    → index_in x (y ∷ ys) ≡ some i
    → str_eq y x ≡ false
    → (j : ℕ) × (index_in x ys ≡ some j) × (i ≡ suc j)
unfolding index_in
index_in-behind x y ys i h other = elim (Option-cases (index_in x ys)) [
  | inl e ↦ absurd (ground (arith, h, other, e))
  | inr (j, e) ↦ (j, e, ground (arith, h, other, e))
]

index_in-later :
    (x : String) (i : ℕ)
    → index_in x step_ids ≡ some i
    → str_eq "auth" x ≡ false
    → str_eq "network" x ≡ false
    → ((0 == i) ≡ false) × ((1 == i) ≡ false)
index_in-later x i h a n =
    let (j, hj, ij) = index_in-behind x "auth" (drop 1 step_ids) i h a in
    let (k, hk, jk) = index_in-behind x "network" (drop 2 step_ids) j hj n in
    (ground (arith, ij), ground (arith, ij, jk))

deploy-stack_error :
    (lower : String → String) (now : ℕ) (id text : String) (pulumi : Pulumi) (t : ProgressTracker)
    → pulumi.stack_error ≡ some text
    → deploy_with_tracker lower now id pulumi t ≡ (
      fail_step lower now id "network"
          (some text)
          (start_step now id "network" (complete_step now id "auth" t)),
      some text,
    )
unfolding deploy_with_tracker
deploy-stack_error lower now id text pulumi t e = rw (e, deploy_with_tracker) refl

-- A run whose stack cannot be set up, from a step that is neither of the first two, leaves that step in
-- progress.
run_from-IsWorking :
    (lower : String → String) (now : ℕ) (id step_id text : String) (pulumi : Pulumi) (i : ℕ)
    (t : ProgressTracker)
    → ((0 == i) ≡ false) × ((1 == i) ≡ false)
    → pulumi.stack_error ≡ some text
    → IsTracked (start_step now id step_id t)
    → IsWorking id i (start_step now id step_id t)
    → IsWorking id i (run_from lower now id step_id pulumi t)
unfolding run_from finish_run index_in
run_from-IsWorking lower now id step_id text pulumi i t later e h w =
    let begun = start_step now id step_id t in
    let authed = complete_step now id "auth" begun in
    let h1 = complete_step-IsTracked now id "auth" begun h in
    let w1 = complete_other-IsWorking now id "auth" begun i 0 refl later.0 h w in
    let networked = start_step now id "network" authed in
    let h2 = start_step-IsTracked now id "network" authed h1 in
    let w2 = start_other-IsWorking now id "network" authed i 1 refl later.1 h1 w1 in
    rw (deploy-stack_error lower now id text pulumi begun e, run_from)
      (fail_other-IsWorking lower now id "network" (some text) networked i 1 refl later.1 h2 w2)

-- If a deployment is retried from a step that is neither "auth" nor "network", and the stack cannot be set
-- up in the retry, then the deployment cannot be retried again: `RetryDeployment` says that it is active.
pub failed_retry-stuck :
    (lower : String → String) (now begun later : ℕ) (id step_id text : String) (pulumi : Pulumi)
    (t u : ProgressTracker)
    → IsTracked t
    → retry_deployment now id t ≡ retrying step_id u
    → str_eq "auth" step_id ≡ false
    → str_eq "network" step_id ≡ false
    → pulumi.stack_error ≡ some text
    → retry_deployment later id (run_from lower begun id step_id pulumi u)
      ≡ refused deployment_active
failed_retry-stuck lower now begun later id step_id text pulumi t u h r a n e =
    let restarts = retrying-Restarts now id step_id t u h r in
    let p = restarts.before in
    let i = restarts.index in
    let s = restarts.step in
    let plan = h id p restarts.was in
    let tracked : IsTracked u =
      subst (λ v. IsTracked v) restarts.by_reset (reset_step-IsTracked now id s.id t h) in
    let index : index_in step_id step_ids ≡ some i =
      subst (λ x. index_in x step_ids ≡ some i) restarts.named
        (sym (plan-index_in s.id p plan) ∙ plan-index p i s plan restarts.found) in
    let q = reset_at now p i in
    let w =
      started-IsWorking begun id step_id u q i (reset s) restarts.now_is
        (plan-index_in step_id q (tracked id q restarts.now_is) ∙ index)
        (at-modify_from reset i s p.steps restarts.found) in
    working-refused later id i (run_from lower begun id step_id pulumi u) (
      run_from-IsWorking lower begun id step_id text pulumi i u (index_in-later step_id i index a n)
        e (start_step-IsTracked begun id step_id u tracked) w)
