-- ===== src/Installer/Retry/Renewal.antt =====
-- What a reset leaves of a deployment and what it sets anew.
use philotes.Common.{ℕ, zero, suc, ◌≡◌, refl, ap, List, [], ◌∷◌, map, take, drop, All, none, false}
use philotes.Common.Int.{pos}
use philotes.Installer.Progress.{
  pending, SubStep, DeploymentStep, DeploymentProgress, calculate_overall_progress,
  calculate_remaining_time,
}
use philotes.Installer.Tracker.{modify_from}
use philotes.Installer.Tracker.Plan.{ids}
use philotes.Installer.Tracker.Steps.{reset_sub, reset, reset_at}

-- A pending step without times and without an error, and its sub-steps pending and without details.
abbrev pub IsUntouched : DeploymentStep → Type 0
IsUntouched s =
    (s.status ≡ pending)
    × (s.started_at ≡ none)
    × (s.completed_at ≡ none)
    × (s.elapsed_time_ms ≡ pos 0)
    × (s.error ≡ none)
    × (s.current_sub_step ≡ pos 0)
    × All (λ sub. (sub.status ≡ pending) × (sub.details ≡ "")) s.sub_steps

-- `after` is `before` with its steps pending again from `index` on.
pub record Renewed (now : ℕ) (before : DeploymentProgress) (index : ℕ) (after : DeploymentProgress)
    : Type 0 where
  pub front_kept : take index after.steps ≡ take index before.steps
  pub ids_kept : ids after.steps ≡ ids before.steps
  pub rest_untouched : All IsUntouched (drop index after.steps)
  pub index_is : after.current_step_index ≡ index
  pub no_retry : after.can_retry ≡ false
  pub percentage : after.overall_progress ≡ calculate_overall_progress after.steps
  pub remaining : after.estimated_remaining_ms ≡ calculate_remaining_time now after.steps index
  pub resources_kept : after.resources_created ≡ before.resources_created

take-modify_from {ℓ} :
    {A : Type ℓ} (f : A → A) (i : ℕ) (xs : List A) → take i (modify_from f i xs) ≡ take i xs
take-modify_from f zero xs = refl
take-modify_from f (suc i) [] = refl
take-modify_from f (suc i) (x ∷ xs) = ap (◌∷◌ x) (take-modify_from f i xs)

ids-modify_from :
    (i : ℕ) (steps : List DeploymentStep) → ids (modify_from reset i steps) ≡ ids steps
ids-modify_from zero [] = refl
ids-modify_from zero (s ∷ ss) = ap (◌∷◌ s.id) (ids-modify_from zero ss)
ids-modify_from (suc i) [] = refl
ids-modify_from (suc i) (s ∷ ss) = ap (◌∷◌ s.id) (ids-modify_from i ss)

reset-IsUntouched : (s : DeploymentStep) → IsUntouched (reset s)
reset-IsUntouched s = (refl, refl, refl, refl, refl, refl, subs s.sub_steps)
  where
    subs :
        (l : List SubStep)
        → All (λ sub. (sub.status ≡ pending) × (sub.details ≡ "")) (map reset_sub l)
    subs [] = tt
    subs (x ∷ xs) = ((refl, refl), subs xs)

rest-IsUntouched :
    (i : ℕ) (steps : List DeploymentStep) → All IsUntouched (drop i (modify_from reset i steps))
rest-IsUntouched zero [] = tt
rest-IsUntouched zero (s ∷ ss) = (reset-IsUntouched s, rest-IsUntouched zero ss)
rest-IsUntouched (suc i) [] = tt
rest-IsUntouched (suc i) (s ∷ ss) = rest-IsUntouched i ss

pub reset_at-Renewed :
    (now : ℕ) (p : DeploymentProgress) (i : ℕ) → Renewed now p i (reset_at now p i)
reset_at-Renewed now p i = record {
  front_kept = take-modify_from reset i p.steps;
  ids_kept = ids-modify_from i p.steps;
  rest_untouched = rest-IsUntouched i p.steps;
  index_is = refl;
  no_retry = refl;
  percentage = refl;
  remaining = refl;
  resources_kept = refl;
}
