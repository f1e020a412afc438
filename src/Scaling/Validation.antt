-- ===== src/Scaling/Validation.antt =====
-- internal/scaling/types.go: the validation of policies.
pub mod Validity
use Prim.Native.String.{String}
use text.Mathlib.Text.{◌==◌ as str_eq}
use philotes.Common.{
  ℕ, suc, Bool, true, false, not, Option, none, some, List, [], ◌∷◌, if◌then◌else◌,
}
use philotes.Common.Int.{ℤ, pos, ltb_ℤ}
use philotes.Common.Floats.{Floats}
use philotes.Scaling.{Rule, Schedule, Policy, operator_is_valid, target_is_valid}

pub data RuleError : Type 0 where
  metric_required invalid_operator negative_duration zero_scale_by : RuleError

pub data ScheduleError : Type 0 where
  cron_required negative_replicas timezone_required : ScheduleError

-- The errors on a list carry the place of the entry.
pub data PolicyError : Type 0 where
  name_required invalid_target_type negative_min max_below_one min_above_max : PolicyError
  negative_cooldown negative_cost : PolicyError
  scale_up_rule scale_down_rule : ℕ → RuleError → PolicyError
  scale_up_sign scale_down_sign : ℕ → PolicyError
  bad_schedule : ℕ → ScheduleError → PolicyError

abbrev is_negative : ℤ → Bool
is_negative a = ltb_ℤ a (pos 0)

abbrev is_positive : ℤ → Bool
is_positive a = ltb_ℤ (pos 0) a

abbrev is_zero : ℤ → Bool
is_zero a = if is_negative a then false else not (is_positive a)

-- The error of the first check that gives one.
abbrev or_else : Option PolicyError → Option PolicyError → Option PolicyError
or_else (some x) next = some x
or_else none next = next

abbrev is_negative_cost : (f : Floats) → Option (f.Float) → Bool
is_negative_cost f none = false
is_negative_cost f (some cost) = f.ltb cost (f.of_int 0)

-- `none` is no error.
module _ {f : Floats} where
  unfoldable pub validate_rule : Rule f → Option RuleError
  validate_rule r =
      if str_eq r.metric ""
      then some metric_required
      else if not (operator_is_valid r.operator)
      then some invalid_operator
      else if is_negative r.duration_seconds
      then some negative_duration
      else if is_zero r.scale_by
      then some zero_scale_by
      else none

  unfoldable pub validate_schedule : Schedule f → Option ScheduleError
  validate_schedule s =
      if str_eq s.cron_expression ""
      then some cron_required
      else if is_negative s.desired_replicas
      then some negative_replicas
      else if str_eq s.timezone ""
      then some timezone_required
      else none

  -- The loops, from the place of the first entry.
  unfoldable pub validate_up_rules : ℕ → List (Rule f) → Option PolicyError
  unfolding validate_rule
  validate_up_rules i [] = none
  validate_up_rules i (r ∷ rs) =
      let rest = validate_up_rules (suc i) rs in
      elim (validate_rule r) [
        | some x ↦ some (scale_up_rule i x)
        | none ↦ if not (is_positive r.scale_by) then some (scale_up_sign i) else rest
      ]

  unfoldable pub validate_down_rules : ℕ → List (Rule f) → Option PolicyError
  unfolding validate_rule
  validate_down_rules i [] = none
  validate_down_rules i (r ∷ rs) =
      let rest = validate_down_rules (suc i) rs in
      elim (validate_rule r) [
        | some x ↦ some (scale_down_rule i x)
        | none ↦ if not (is_negative r.scale_by) then some (scale_down_sign i) else rest
      ]

  unfoldable pub validate_schedules : ℕ → List (Schedule f) → Option PolicyError
  unfolding validate_schedule
  validate_schedules i [] = none
  validate_schedules i (s ∷ ss) =
      let rest = validate_schedules (suc i) ss in
      elim (validate_schedule s) [ some x ↦ some (bad_schedule i x) | none ↦ rest ]

  unfoldable pub validate : Policy f → Option PolicyError
  unfolding validate_up_rules validate_down_rules validate_schedules
  validate p =
      if str_eq p.name ""
      then some name_required
      else if not (target_is_valid p.target_type)
      then some invalid_target_type
      else if is_negative p.min_replicas
      then some negative_min
      else if ltb_ℤ p.max_replicas (pos 1)
      then some max_below_one
      else if ltb_ℤ p.max_replicas p.min_replicas
      then some min_above_max
      else if is_negative p.cooldown_seconds
      then some negative_cooldown
      else if is_negative_cost f p.max_hourly_cost
      then some negative_cost
      else or_else (validate_up_rules 0 p.scale_up_rules)
          (or_else (validate_down_rules 0 p.scale_down_rules) (validate_schedules 0 p.schedules))
