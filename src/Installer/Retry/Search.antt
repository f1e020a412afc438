-- ===== src/Installer/Retry/Search.antt =====
-- The steps that the loops of a retry find, and what of them is left behind a reset.
use Prim.Native.String.{String}
use text.Mathlib.Text.{◌==◌ as str_eq}
use text.Mathlib.TextEquality.{eq_iff}
use philotes.Common.{
  ℕ, zero, suc, ◌≡◌, sym, ap, subst, inl, inr, true, false, none, some, List, [], ◌∷◌, map, take,
  All, Bool-cases, arith, refl,
}
use philotes.Installer.Progress.{DeploymentStep, DeploymentProgress, step_id_to_index}
use philotes.Installer.Tracker.{at, modify_from}
use philotes.Installer.Tracker.Steps.{reset}
use philotes.Installer.Tracker.Plan.{step_ids, ids, IsPlan}
use philotes.Installer.Retry.{is_failed, is_in_progress, any_in_progress, find_failed_step}

abbrev AreDistinct : List String → Type 0
AreDistinct [] = Unit
AreDistinct (x ∷ xs) = All (λ y. str_eq x y ≡ false) xs × AreDistinct xs

step_ids-AreDistinct : AreDistinct step_ids
step_ids-AreDistinct = (
  (refl, (refl, (refl, (refl, (refl, (refl, (refl, (refl, (refl, tt))))))))),
  (
    (refl, (refl, (refl, (refl, (refl, (refl, (refl, (refl, tt)))))))),
    (
      (refl, (refl, (refl, (refl, (refl, (refl, (refl, tt))))))),
      (
        (refl, (refl, (refl, (refl, (refl, (refl, tt)))))),
        (
          (refl, (refl, (refl, (refl, (refl, tt))))),
          (
            (refl, (refl, (refl, (refl, tt)))),
            ((refl, (refl, (refl, tt))), ((refl, (refl, tt)), ((refl, tt), (tt, tt)))),
          ),
        ),
      ),
    ),
  ),
)

other-at :
    (x : String) (i : ℕ) (s : DeploymentStep) (steps : List DeploymentStep)
    → All (λ y. str_eq x y ≡ false) (ids steps)
    → at i steps ≡ some s
    → str_eq x s.id ≡ false
other-at x i s [] a h = absurd (ground (arith, h))
other-at x zero s (s0 ∷ ss) a h = ground (arith, h, a.0)
other-at x (suc i) s (s0 ∷ ss) a h = other-at x i s ss a.1 h

-- With distinct IDs, the index of a step's ID is that of the step.
pub index-at :
    (i : ℕ) (s : DeploymentStep) (steps : List DeploymentStep)
    → AreDistinct (ids steps)
    → at i steps ≡ some s
    → step_id_to_index s.id steps ≡ some i
unfolding step_id_to_index
index-at i s [] d h = absurd (ground (arith, h))
index-at zero s (s0 ∷ ss) d h = ground (arith, h, (eq_iff s.id s.id).1 refl)
index-at (suc i) s (s0 ∷ ss) d h =
    ground (arith, index-at i s ss d.1 h, other-at s0.id i s ss d.0 h)

pub plan-index :
    (p : DeploymentProgress) (i : ℕ) (s : DeploymentStep)
    → IsPlan p
    → at i p.steps ≡ some s
    → step_id_to_index s.id p.steps ≡ some i
plan-index p i s plan h =
    index-at i s p.steps (subst (λ x. AreDistinct x) (sym plan.plan) step_ids-AreDistinct) h

-- The failed step that is found is the first one.
pub find_failed_step-at :
    (s : DeploymentStep) (steps : List DeploymentStep)
    → find_failed_step steps ≡ some s
    → (i : ℕ) × (at i steps ≡ some s)
      × (is_failed s.status ≡ true)
      × (find_failed_step (take i steps) ≡ none)
unfolding find_failed_step
find_failed_step-at s [] h = absurd (ground (arith, h))
find_failed_step-at s (s0 ∷ ss) h = elim (Bool-cases (is_failed s0.status)) [
  | inl here ↦
      let e : s0 ≡ s = ground (arith, here, h) in
      (0, ap some e, subst (λ x. is_failed x.status ≡ true) e here, refl)
  | inr later ↦
      let (i, found, failed_, before) = find_failed_step-at s ss (ground (arith, later, h)) in
      (suc i, found, failed_, ground (arith, later, before))
]

find_failed_step-map : (steps : List DeploymentStep) → find_failed_step (map reset steps) ≡ none
unfolding find_failed_step
find_failed_step-map [] = refl
find_failed_step-map (s ∷ ss) = find_failed_step-map ss

any_in_progress-map : (steps : List DeploymentStep) → any_in_progress (map reset steps) ≡ false
unfolding any_in_progress
any_in_progress-map [] = refl
any_in_progress-map (s ∷ ss) = any_in_progress-map ss

-- No step that is reset has failed or is in progress.
pub find_failed_step-reset :
    (i : ℕ) (steps : List DeploymentStep)
    → find_failed_step (modify_from reset i steps) ≡ find_failed_step (take i steps)
unfolding find_failed_step
find_failed_step-reset zero ss = find_failed_step-map ss
find_failed_step-reset (suc i) [] = refl
find_failed_step-reset (suc i) (s ∷ ss) = ground (arith, find_failed_step-reset i ss)

pub any_in_progress-reset :
    (i : ℕ) (steps : List DeploymentStep)
    → any_in_progress steps ≡ false
    → any_in_progress (modify_from reset i steps) ≡ false
unfolding any_in_progress
any_in_progress-reset zero ss h = any_in_progress-map ss
any_in_progress-reset (suc i) [] h = refl
any_in_progress-reset (suc i) (s ∷ ss) h = elim (Bool-cases (is_in_progress s.status)) [
  | inl here ↦ absurd (ground (arith, here, h))
  | inr later ↦ ground (arith, later, any_in_progress-reset i ss (ground (arith, later, h)))
]
