-- ===== src/Installer/Progress/Bounds.antt =====
-- Bounds on the percentage of a deployment.
use philotes.Common.{
  ℕ, ◌*◌, ◌/◌, ◌≤◌, ◌<◌, ◌≡◌, ◌↔◌, inl, inr, List, [], ◌∷◌, leb, length, if◌then◌else◌, Bool-cases,
  arith, refl, leb→le,
}
use native.Mathlib.Nat.{div-lt_iff_lt-mul}
use philotes.Installer.Progress.{DeploymentStep, count_done, calculate_overall_progress}

count_done-le : (steps : List DeploymentStep) → count_done steps ≤ length steps
unfolding count_done
count_done-le [] = ground arith
count_done-le (s ∷ ss) = ground (arith, count_done-le ss)

percent-lt : (done count : ℕ) → done < count → done * 100 / count < 100
percent-lt done count h =
    (div-lt_iff_lt-mul {k = count} {x = done * 100} {y = 100} (omega (arith, h))).1
      (omega (arith, h))

percent-bounds :
    (done count : ℕ)
    → done ≤ count
    → ((if leb count done then 100 else done * 100 / count) ≤ 100)
      × (((if leb count done then 100 else done * 100 / count) ≡ 100) ↔ (done ≡ count))
percent-bounds done count h = elim (Bool-cases (leb count done)) [
  | inl all ↦
      let same : done ≡ count = omega (arith, h, leb→le count done all) in
      rw (all) (ground arith, ((λ _. same), (λ _. refl)))
  | inr some_left ↦
      let below : done < count = ground (arith, h) in
      rw (some_left) (
        omega (arith, percent-lt done count below),
        (
          (λ x. absurd (omega (arith, x, percent-lt done count below))),
          (λ x. absurd (omega (arith, x, below))),
        ),
      )
]

-- The percentage is at most 100, and 100 exactly if there are steps and all of them are done.
pub overall_progress-bounds :
    (steps : List DeploymentStep)
    → (calculate_overall_progress steps ≤ 100)
      × ((calculate_overall_progress steps ≡ 100)
          ↔ ((0 < length steps) × (count_done steps ≡ length steps)))
unfolding calculate_overall_progress
overall_progress-bounds [] =
    (ground arith, ((λ x. absurd (omega (arith, x))), (λ x. absurd (omega (arith, x.0)))))
overall_progress-bounds (s ∷ ss) =
    let b = percent-bounds (count_done (s ∷ ss)) (length (s ∷ ss)) (count_done-le (s ∷ ss)) in
    (b.0, ((λ x. (ground arith, b.1.0 x)), (λ x. b.1.1 x.1)))
