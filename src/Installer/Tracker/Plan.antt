-- ===== src/Installer/Tracker/Plan.antt =====
-- What every method of the tracker keeps: the plan of the deployments that are tracked.
use Prim.Native.String.{String}
use philotes.Common.{
  ℕ, zero, suc, ◌≤◌, ◌<◌, ◌≡◌, ap, sym, ◌∙◌, inl, inr, some, List, [], ◌∷◌, length, map, Bool-cases,
  Option-cases, arith, refl,
}
use text.Mathlib.Text.{◌==◌ as str_eq}
use philotes.Common.Maps.{lookup}
use philotes.Installer.Progress.{DeploymentStep, DeploymentProgress, step_id_to_index}
use philotes.Installer.Tracker.{ProgressTracker, modify, modify_from}

abbrev pub step_ids : List String
step_ids =
    "auth" ∷ "network" ∷ "compute" ∷ "k3s" ∷ "storage" ∷ "catalog" ∷ "philotes" ∷ "health" ∷ "ssl"
    ∷ "ready" ∷ []

abbrev pub ids : List DeploymentStep → List String
ids steps = map (λ s. s.id) steps

-- The ten steps in their order, an index of one of them, and a percentage.
pub record IsPlan (p : DeploymentProgress) : Type 0 where
  pub plan : ids p.steps ≡ step_ids
  pub current : p.current_step_index < 10
  pub percent : p.overall_progress ≤ 100

abbrev pub IsTracked : ProgressTracker → Type 0
IsTracked t = (id : String) (p : DeploymentProgress) → lookup id t.progress ≡ some p → IsPlan p

pub ids-modify :
    (f : DeploymentStep → DeploymentStep) (i : ℕ) (steps : List DeploymentStep)
    → ((s : DeploymentStep) → (f s).id ≡ s.id)
    → ids (modify f i steps) ≡ ids steps
ids-modify f i [] h = refl
ids-modify f zero (s ∷ ss) h = ap (λ x. x ∷ ids ss) (h s)
ids-modify f (suc i) (s ∷ ss) h = ap (λ x. s.id ∷ x) (ids-modify f i ss h)

ids-map :
    (f : DeploymentStep → DeploymentStep) (steps : List DeploymentStep)
    → ((s : DeploymentStep) → (f s).id ≡ s.id)
    → ids (map f steps) ≡ ids steps
ids-map f [] h = refl
ids-map f (s ∷ ss) h = rw (h s, ids-map f ss h) refl

pub ids-modify_from :
    (f : DeploymentStep → DeploymentStep) (i : ℕ) (steps : List DeploymentStep)
    → ((s : DeploymentStep) → (f s).id ≡ s.id)
    → ids (modify_from f i steps) ≡ ids steps
ids-modify_from f zero ss h = ids-map f ss h
ids-modify_from f (suc i) [] h = refl
ids-modify_from f (suc i) (s ∷ ss) h = ap (λ x. s.id ∷ x) (ids-modify_from f i ss h)

length-ids : (steps : List DeploymentStep) → length (ids steps) ≡ length steps
length-ids [] = refl
length-ids (s ∷ ss) = ap suc (length-ids ss)

pub length-plan : (steps : List DeploymentStep) → ids steps ≡ step_ids → length steps ≡ 10
length-plan steps h = sym (length-ids steps) ∙ ap length h

pub step_id_to_index-lt :
    (step_id : String) (steps : List DeploymentStep) (i : ℕ)
    → step_id_to_index step_id steps ≡ some i
    → i < length steps
unfolding step_id_to_index
step_id_to_index-lt step_id [] i h = absurd (ground (arith, h))
step_id_to_index-lt step_id (s ∷ ss) i h = elim (Bool-cases (str_eq s.id step_id)) [
  | inl same ↦ ground (arith, same, h)
  | inr other ↦ elim (Option-cases (step_id_to_index step_id ss)) [
    | inl x ↦ absurd (ground (arith, other, x, h))
    | inr (j, x) ↦ ground (arith, other, x, h, step_id_to_index-lt step_id ss j x)
  ]
]
