-- ===== src/Alerting.antt =====
-- internal/alerting/types.go and evaluator.go: alert rules, their instances, silences and evaluation.
-- Times are readings of the clock, in nanoseconds; IDs are texts.
mod Tests
pub mod Manager
pub mod Notifier
use Prim.Native.String.{String}
use text.Mathlib.Text.{◌==◌ as str_eq}
use philotes.Common.{
  ℕ, Bool, true, false, ◌&&◌, Option, none, some, List, [], ◌∷◌, ltb, map, if◌then◌else◌,
}
use philotes.Common.Int.{ℤ}
use philotes.Common.Floats.{Floats}
use philotes.Common.Maps.{lookup, put}

pub data Severity : Type 0 where
  info warning critical : Severity
  no_severity : String → Severity

pub data Status : Type 0 where
  firing resolved : Status

pub data Operator : Type 0 where
  greater_than less_than equal greater_than_equal less_than_equal : Operator
  no_operator : String → Operator

evaluate_operator : (f : Floats) → Operator → f.Float → f.Float → Bool
evaluate_operator f greater_than value threshold = f.gtb value threshold
evaluate_operator f less_than value threshold = f.ltb value threshold
evaluate_operator f equal value threshold = f.eqb value threshold
evaluate_operator f greater_than_equal value threshold = f.geb value threshold
evaluate_operator f less_than_equal value threshold = f.leb value threshold
evaluate_operator f (no_operator s) value threshold = false

pub data EventType : Type 0 where
  fired_event resolved_event acknowledged_event sent_event failed_event : EventType

abbrev pub Labels : Type 0
Labels = List (String × String)

module _ (f : Floats) where
  pub record AlertRule : Type 0 where
    pub id : String
    pub name : String
    pub metric_name : String
    pub operator : Operator
    pub threshold : f.Float
    pub duration_seconds : ℤ
    pub severity : Severity
    pub labels : Labels
    pub annotations : Labels
    pub enabled : Bool

  pub record AlertInstance : Type 0 where
    pub id : String
    pub rule_id : String
    pub fingerprint : String
    pub status : Status
    pub labels : Labels
    pub annotations : Labels
    pub current_value : Option (f.Float)
    pub fired_at : ℕ
    pub resolved_at : Option ℕ

  pub record AlertHistory : Type 0 where
    pub alert_id : String
    pub rule_id : String
    pub event_type : EventType
    pub value : Option (f.Float)

  pub record EvaluationResult : Type 0 where
    pub value : f.Float
    pub labels : Labels
    pub should_fire : Bool

  -- A series that Prometheus returns.
  pub record Metric : Type 0 where
    pub labels : Labels
    pub value : f.Float

pub record AlertSilence : Type 0 where
  pub matchers : Labels
  pub starts_at : ℕ
  pub ends_at : ℕ

unfoldable pub is_active : ℕ → AlertSilence → Bool
is_active now s = ltb s.starts_at now && ltb now s.ends_at

-- The loop over the matchers.
matches_all : Labels → Labels → Bool
matches_all [] labels = true
matches_all ((key, value) ∷ rest) labels =
    let others = matches_all rest labels in
    elim (lookup key labels) [ none ↦ false | some v ↦ if str_eq v value then others else false ]

unfoldable pub matches : AlertSilence → Labels → Bool
unfolding matches_all
matches s labels = matches_all s.matchers labels

-- The labels of a series go over those of the rule.
merge_labels : Labels → Labels → Labels
merge_labels labels [] = labels
merge_labels labels ((k, v) ∷ rest) = merge_labels (put k v labels) rest

-- `Evaluate`, behind the query of Prometheus.
unfoldable pub evaluate_metrics :
    {f : Floats} → AlertRule f → List (Metric f) → List (EvaluationResult f)
unfolding evaluate_operator merge_labels
evaluate_metrics {f} rule metrics =
    map
      (λ m. record {
        value = m.value;
        labels = merge_labels rule.labels m.labels;
        should_fire = evaluate_operator f rule.operator m.value rule.threshold;
      })
      metrics
