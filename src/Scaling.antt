-- ===== src/Scaling.antt =====
-- internal/scaling/types.go: the policies, rules and states of the auto-scaling.
-- Replicas and seconds are Go's `int`. Times are readings of the clock, in nanoseconds.
mod Tests
pub mod Validation
pub mod Evaluator
pub mod Manager
pub mod Executors
pub mod Lifecycle
pub mod Query
pub mod Idle
pub mod Wake
use Prim.Native.String.{String}
use philotes.Common.{ℕ, Bool, true, false, Option, none, some, List, if◌then◌else◌}
use philotes.Common.Int.{ℤ, pos, ltb_ℤ, sub_ℕ, ◌-ℤ◌, ◌*ℤ◌}
use philotes.Common.Floats.{Floats}

-- A string type with its known constants, and any other text.
pub data TargetType : Type 0 where
  cdc_worker trino rising_wave nodes : TargetType
  no_target : String → TargetType

abbrev pub target_is_valid : TargetType → Bool
target_is_valid (no_target s) = false
target_is_valid _ = true

pub data RuleType : Type 0 where
  scale_up_rule scale_down_rule : RuleType
  no_rule_type : String → RuleType

pub data Operator : Type 0 where
  greater_than less_than greater_than_equal less_than_equal equal : Operator
  no_operator : String → Operator

abbrev pub operator_is_valid : Operator → Bool
operator_is_valid (no_operator s) = false
operator_is_valid _ = true

operator_evaluate : (f : Floats) → Operator → f.Float → f.Float → Bool
operator_evaluate f greater_than value threshold = f.gtb value threshold
operator_evaluate f less_than value threshold = f.ltb value threshold
operator_evaluate f greater_than_equal value threshold = f.geb value threshold
operator_evaluate f less_than_equal value threshold = f.leb value threshold
operator_evaluate f equal value threshold = f.eqb value threshold
operator_evaluate f (no_operator s) value threshold = false

pub data Action : Type 0 where
  scale_up scale_down scheduled manual : Action

abbrev pub second : ℤ
second = pos 1000000000

module _ (f : Floats) where
  -- An ID is the text of its UUID.
  pub record Rule : Type 0 where
    pub id : String
    pub rule_type : RuleType
    pub metric : String
    pub operator : Operator
    pub threshold : f.Float
    pub duration_seconds : ℤ
    pub scale_by : ℤ

  pub record Schedule : Type 0 where
    pub id : String
    pub cron_expression : String
    pub desired_replicas : ℤ
    pub timezone : String
    pub enabled : Bool

  pub record Policy : Type 0 where
    pub id : String
    pub name : String
    pub target_type : TargetType
    pub target_id : Option String
    pub min_replicas : ℤ
    pub max_replicas : ℤ
    pub cooldown_seconds : ℤ
    pub max_hourly_cost : Option (f.Float)
    pub scale_to_zero : Bool
    pub enabled : Bool
    pub scale_up_rules : List Rule
    pub scale_down_rules : List Rule
    pub schedules : List Schedule

module _ {f : Floats} where
  unfoldable pub rule_duration : Rule f → ℤ
  rule_duration r = r.duration_seconds *ℤ second

  unfoldable pub rule_evaluate : Rule f → f.Float → Bool
  unfolding operator_evaluate
  rule_evaluate r value = operator_evaluate f r.operator value r.threshold

  unfoldable pub cooldown_duration : Policy f → ℤ
  cooldown_duration p = p.cooldown_seconds *ℤ second

  unfoldable pub clamp_replicas : Policy f → ℤ → ℤ
  clamp_replicas p replicas =
      if ltb_ℤ replicas p.min_replicas
      then p.min_replicas
      else if ltb_ℤ p.max_replicas replicas
      then p.max_replicas
      else replicas

-- `pending` is the map `PendingConditions`: the keys of rules with the time of their first trigger.
pub record State : Type 0 where
  pub policy_id : String
  pub current_replicas : ℤ
  pub last_scale_time : Option ℕ
  pub last_scale_action : Option Action
  pub pending : List (String × ℕ)

unfoldable pub is_in_cooldown : ℕ → State → ℤ → Bool
is_in_cooldown now s cooldown = elim s.last_scale_time [
  | none ↦ false
  | some t ↦ ltb_ℤ (sub_ℕ now t) cooldown
]

-- What the text of a reason says.
pub data Reason : Type 0 where
  in_cooldown : ℤ → Reason
  rule_triggered : String → ℤ → Reason
  no_rules_triggered : Reason

-- `action` and `triggered_by` are none where the strings are empty.
pub record Decision : Type 0 where
  pub action : Option Action
  pub current_replicas : ℤ
  pub desired_replicas : ℤ
  pub reason : Reason
  pub triggered_by : Option String
  pub should_execute : Bool
  pub cooldown_remaining : ℤ

unfoldable pub delta : Decision → ℤ
delta d = d.desired_replicas -ℤ d.current_replicas
