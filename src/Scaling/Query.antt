-- ===== src/Scaling/Query.antt =====
-- internal/scaling/query/policy.go: the policies that scale query engines by their queries. What the
-- collector has cached is a map from engines.
pub mod Decides
use Prim.Native.String.{String}
use philotes.Common.{
  ℕ, zero, suc, ◌/◌, Bool, true, false, not, ◌&&◌, ◌||◌, Option, none, some, List, if◌then◌else◌,
  ◌==◌,
}
use philotes.Common.Int.{ℤ, pos, negsuc, sub_ℕ, ltb_ℤ, ◌+ℤ◌, ◌-ℤ◌, ◌*ℤ◌}
use philotes.Common.Floats.{Floats}
use philotes.Common.Maps.{lookup, put}

pub record QueryPolicy : Type 0 where
  pub id : String
  pub name : String
  pub query_engine : String
  pub enabled : Bool
  pub min_replicas : ℤ
  pub max_replicas : ℤ
  pub cooldown_seconds : ℤ
  pub scale_to_zero : Bool
  pub queued_queries_threshold : ℤ
  pub running_queries_threshold : ℤ
  pub latency_threshold_seconds : ℤ

-- The text of the action.
pub data QueryAction : Type 0 where
  no_action scale_up scale_down scale_to_zero : QueryAction

-- Why an evaluation decides as it does, in place of the text.
pub data TriggerReason : Type 0 where
  policy_disabled in_cooldown no_metrics within_thresholds : TriggerReason
  queued_queries running_queries p95_latency no_active_queries low_query_load : TriggerReason

module _ (f : Floats) where
  pub record Metrics : Type 0 where
    pub queued_queries : ℤ
    pub running_queries : ℤ
    pub blocked_queries : ℤ
    pub p95_latency_ms : Option (f.Float)

  pub record QueryDecision : Type 0 where
    pub policy_id : String
    pub query_engine : String
    pub action : QueryAction
    pub current_replicas : ℤ
    pub desired_replicas : ℤ
    pub trigger_reason : TriggerReason
    pub trigger_value : f.Float

-- `last_scale_time` says when a policy was scaled last; `of_int` is the conversion of an `int`.
pub record QueryEvaluator (f : Floats) : Type 0 where
  pub cached : List (String × Metrics f)
  pub last_scale_time : List (String × ℕ)

abbrev pub leb_ℤ : ℤ → ℤ → Bool
leb_ℤ a b = not (ltb_ℤ b a)

abbrev pub min_ℤ : ℤ → ℤ → ℤ
min_ℤ a b = if ltb_ℤ b a then b else a

abbrev pub max_ℤ : ℤ → ℤ → ℤ
max_ℤ a b = if ltb_ℤ a b then b else a

-- Go's division of an `int` by 2, towards 0.
abbrev pub half : ℤ → ℤ
half (pos n) = pos (n / 2)
half (negsuc n) = sub_ℕ 0 (suc n / 2)

abbrev is_zero_ℤ : ℤ → Bool
is_zero_ℤ (pos zero) = true
is_zero_ℤ (pos (suc n)) = false
is_zero_ℤ (negsuc n) = false

abbrev query_cooldown : QueryPolicy → ℤ
query_cooldown p = p.cooldown_seconds *ℤ pos 1000000000

abbrev pub one_more : QueryPolicy → ℤ → ℤ
one_more p current = min_ℤ (current +ℤ pos 1) p.max_replicas

abbrev pub one_less : QueryPolicy → ℤ → ℤ
one_less p current = max_ℤ (current -ℤ pos 1) p.min_replicas

module _ {f : Floats} where
  abbrev pub decide : QueryPolicy → ℤ → QueryAction → ℤ → TriggerReason → f.Float → QueryDecision f
  decide p current action desired reason value = record {
    policy_id = p.id;
    query_engine = p.query_engine;
    action = action;
    current_replicas = current;
    desired_replicas = desired;
    trigger_reason = reason;
    trigger_value = value;
  }

  -- Whether no query is queued, runs or is blocked.
  abbrev pub is_quiet : Metrics f → Bool
  is_quiet m =
      is_zero_ℤ m.queued_queries && is_zero_ℤ m.running_queries && is_zero_ℤ m.blocked_queries

  abbrev pub is_low : QueryPolicy → Metrics f → Bool
  is_low p m =
      ltb_ℤ m.queued_queries (half p.queued_queries_threshold)
      && ltb_ℤ m.running_queries (half p.running_queries_threshold)

  unfoldable pub is_cooling : ℕ → QueryPolicy → QueryEvaluator f → Bool
  is_cooling now p e = elim (lookup p.id e.last_scale_time) [
    | none ↦ false
    | some last ↦ ltb_ℤ (sub_ℕ now last) (query_cooldown p)
  ]

module _ {f : Floats} (of_int : ℤ → f.Float) where
  abbrev pub stay : QueryPolicy → ℤ → TriggerReason → QueryDecision f
  stay p current reason = decide p current no_action current reason (of_int (pos 0))

  -- Whether the latency is measured, has a threshold, and has reached it.
  abbrev pub slow : QueryPolicy → Metrics f → Option (f.Float)
  slow p m = elim (m.p95_latency_ms) [
    | none ↦ none
    | some latency ↦
        if ltb_ℤ (pos 0) p.latency_threshold_seconds
          && f.geb latency (of_int (p.latency_threshold_seconds *ℤ pos 1000))
        then some latency
        else none
  ]

  abbrev up_by : QueryPolicy → ℤ → TriggerReason → f.Float → Option (QueryDecision f)
  up_by p current reason value = some (decide p current scale_up (one_more p current) reason value)

  unfoldable pub evaluate_scale_up : QueryPolicy → Metrics f → ℤ → Option (QueryDecision f)
  evaluate_scale_up p m current =
      if leb_ℤ p.max_replicas current
      then none
      else if leb_ℤ p.queued_queries_threshold m.queued_queries
      then up_by p current queued_queries (of_int m.queued_queries)
      else if leb_ℤ p.running_queries_threshold m.running_queries
      then up_by p current running_queries (of_int m.running_queries)
      else elim (slow p m) [ none ↦ none | some latency ↦ up_by p current p95_latency latency ]

  unfoldable pub evaluate_scale_down : QueryPolicy → Metrics f → ℤ → Option (QueryDecision f)
  evaluate_scale_down p m current =
      if leb_ℤ current p.min_replicas && not p.scale_to_zero
      then none
      else if not (is_low p m)
      then none
      else if p.scale_to_zero && is_quiet m
      then some (decide p current scale_to_zero (pos 0) no_active_queries (of_int (pos 0)))
      else if ltb_ℤ p.min_replicas current
      then some (
          decide p current scale_down (one_less p current) low_query_load
            (of_int m.running_queries))
      else none

  -- With the metrics of the engine.
  unfoldable pub evaluate_query_metrics : QueryPolicy → Metrics f → ℤ → QueryDecision f
  unfolding evaluate_scale_up evaluate_scale_down
  evaluate_query_metrics p m current = elim (evaluate_scale_up p m current) [
    | some d ↦ d
    | none ↦ elim (evaluate_scale_down p m current) [
      | some d ↦ d
      | none ↦ stay p current within_thresholds
    ]
  ]

  unfoldable pub evaluate_query_policy : ℕ → QueryPolicy → ℤ → QueryEvaluator f → QueryDecision f
  unfolding evaluate_query_metrics is_cooling
  evaluate_query_policy now p current e =
      if not p.enabled
      then stay p current policy_disabled
      else if is_cooling now p e
      then stay p current in_cooldown
      else elim (lookup p.query_engine e.cached) [
        | none ↦ stay p current no_metrics
        | some m ↦ evaluate_query_metrics p m current
      ]

unfoldable pub record_scaling : {f : Floats} → ℕ → String → QueryEvaluator f → QueryEvaluator f
record_scaling now id e = record e { last_scale_time = put id now e.last_scale_time }
