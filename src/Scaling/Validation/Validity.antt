-- ===== src/Scaling/Validation/Validity.antt =====
-- What a policy that passes the validation is.
use text.Mathlib.Text.{◌==◌ as str_eq}
use philotes.Common.{
  ℕ, suc, ◌≡◌, refl, ◌↔◌, ◌⊎◌, true, false, none, some, List, [], ◌∷◌, All, arith,
}
use philotes.Common.Int.{pos, ◌≤ℤ◌, ◌<ℤ◌}
use philotes.Common.Floats.{Floats}
use philotes.Scaling.{Rule, Schedule, Policy, operator_is_valid, target_is_valid}
use philotes.Scaling.Validation.{
  validate_rule, validate_schedule, validate_up_rules, validate_down_rules, validate_schedules,
  validate,
}

module _ {f : Floats} where
  -- A rule that can be evaluated.
  pub record IsRule (r : Rule f) : Type 0 where
    has_metric : str_eq r.metric "" ≡ false
    has_operator : operator_is_valid r.operator ≡ true
    lasts : pos 0 ≤ℤ r.duration_seconds

  pub record IsSchedule (s : Schedule f) : Type 0 where
    has_cron : str_eq s.cron_expression "" ≡ false
    wants : pos 0 ≤ℤ s.desired_replicas
    has_timezone : str_eq s.timezone "" ≡ false

  abbrev pub IsUp : Rule f → Type 0
  IsUp r = IsRule r × (pos 0 <ℤ r.scale_by)

  abbrev pub IsDown : Rule f → Type 0
  IsDown r = IsRule r × (r.scale_by <ℤ pos 0)

  pub record IsPolicy (p : Policy f) : Type 0 where
    named : str_eq p.name "" ≡ false
    targeted : target_is_valid p.target_type ≡ true
    min_nonneg : pos 0 ≤ℤ p.min_replicas
    max_positive : pos 1 ≤ℤ p.max_replicas
    in_order : p.min_replicas ≤ℤ p.max_replicas
    cooldown_nonneg : pos 0 ≤ℤ p.cooldown_seconds
    cost_nonneg :
        (p.max_hourly_cost ≡ none)
        ⊎ ((cost : f.Float) × (p.max_hourly_cost ≡ some cost) × (f.ltb cost (f.of_int 0) ≡ false))
    ups : All IsUp p.scale_up_rules
    downs : All IsDown p.scale_down_rules
    scheduled_ : All IsSchedule p.schedules

  ups-IsUp : (i : ℕ) (rs : List (Rule f)) → (validate_up_rules i rs ≡ none) ↔ All IsUp rs
  unfolding validate_up_rules validate_rule
  ups-IsUp i [] = (λ e. tt, λ e. refl)
  ups-IsUp i (r ∷ rs) =
      let (to, from) = ups-IsUp (suc i) rs in (λ e. ground (arith, to), λ h. ground (arith, from))

  downs-IsDown : (i : ℕ) (rs : List (Rule f)) → (validate_down_rules i rs ≡ none) ↔ All IsDown rs
  unfolding validate_down_rules validate_rule
  downs-IsDown i [] = (λ e. tt, λ e. refl)
  downs-IsDown i (r ∷ rs) =
      let (to, from) = downs-IsDown (suc i) rs in
      (λ e. ground (arith, to), λ h. ground (arith, from))

  schedules-IsSchedule :
      (i : ℕ) (ss : List (Schedule f)) → (validate_schedules i ss ≡ none) ↔ All IsSchedule ss
  unfolding validate_schedules validate_schedule
  schedules-IsSchedule i [] = (λ e. tt, λ e. refl)
  schedules-IsSchedule i (s ∷ ss) =
      let (to, from) = schedules-IsSchedule (suc i) ss in
      (λ e. ground (arith, to), λ h. ground (arith, from))

  -- `Validate` gives no error exactly for a policy that has a name and a known target, whose bounds are
  -- in order with a minimum that is not negative and a maximum above 0, whose cooldown and cost are not
  -- negative, whose rules can be evaluated and scale in their own direction, and whose schedules have
  -- an expression, a timezone and a number of replicas that is not negative.
  pub validate-IsPolicy : (p : Policy f) → (validate p ≡ none) ↔ IsPolicy p
  unfolding validate
  validate-IsPolicy p =
      let (up, up') = ups-IsUp 0 p.scale_up_rules in
      let (down, down') = downs-IsDown 0 p.scale_down_rules in
      let (times, times') = schedules-IsSchedule 0 p.schedules in
      (λ e. ground (arith, up, down, times), λ h. ground (arith, up', down', times'))
