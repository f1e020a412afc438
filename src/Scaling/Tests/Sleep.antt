-- ===== src/Scaling/Tests/Sleep.antt =====
-- Runs of the query policies, the idle detector and the wake trigger.
use Prim.Native.String.{String}
use text.Mathlib.Text.{◌==◌ as str_eq}
use philotes.Common.{ℕ, suc, ◌≡◌, refl, true, none, some, List, [], ◌∷◌, if◌then◌else◌, arith}
use philotes.Common.Errors.{plain, ok, err}
use philotes.Common.Int.{ℤ, pos, pos_part}
use philotes.Common.Maps.{lookup, put}
use philotes.Scaling.{State}
use philotes.Scaling.Tests.{whole, bare_policy}
use philotes.Scaling.Query.{
  QueryPolicy, Metrics, QueryDecision, QueryEvaluator, QueryAction, scale_up, scale_down,
  scale_to_zero, evaluate_query_policy,
}
use philotes.Scaling.Query.Decides.{Decided, evaluate_query_policy-Decided}
use philotes.Scaling.Idle.{
  update_idle_states, record_activity, mark_woken, zero_ids, IdleState, IdleRepository, Detector,
  manual, webhook, mark_scaled_to_zero, list_scaled_to_zero_policies,
}
use philotes.Scaling.Idle.ScaledToZero.{
  IdleCall, tick, activity, go_to_zero, wake_up, idle_calls, abstract_calls, is_zero,
  idle_calls-refines,
}
use philotes.Scaling.Wake.{
  WakeServices, Trigger, default_cold_start_config, wake, wake_target, scaled,
}
use philotes.Scaling.Wake.Wakes.{Woke, wake-Woke, KeepsPolicies, wake_again-scales}

abbrev of_int : ℤ → ℕ
of_int n = pos_part n

abbrev trino_policy : QueryPolicy
trino_policy = record {
  id = "q";
  name = "trino";
  query_engine = "trino";
  enabled = true;
  min_replicas = pos 1;
  max_replicas = pos 5;
  cooldown_seconds = pos 60;
  scale_to_zero = true;
  queued_queries_threshold = pos 6;
  running_queries_threshold = pos 10;
  latency_threshold_seconds = pos 0;
}

abbrev metrics : ℤ → ℤ → Metrics whole
metrics queued running = record {
  queued_queries = queued;
  running_queries = running;
  blocked_queries = pos 0;
  p95_latency_ms = none;
}

abbrev evaluator : ℤ → ℤ → QueryEvaluator whole
evaluator queued running = record {
  cached = ("trino", metrics queued running) ∷ [];
  last_scale_time = [];
}

abbrev action_of : QueryDecision whole → QueryAction
action_of d = d.action

goes_up :
    action_of
      (evaluate_query_policy {f = whole} of_int 0 trino_policy (pos 2) (evaluator (pos 6) (pos 1)))
    ≡ scale_up
unfolding evaluate_query_policy lookup
goes_up = refl

goes_down :
    action_of
      (evaluate_query_policy {f = whole} of_int 0 trino_policy (pos 2) (evaluator (pos 2) (pos 1)))
    ≡ scale_down
unfolding evaluate_query_policy lookup
goes_down = refl

-- An engine that rests at 0 is scaled to zero again at every evaluation.
goes_to_zero :
    action_of
      (evaluate_query_policy {f = whole} of_int 0 trino_policy (pos 0) (evaluator (pos 0) (pos 0)))
    ≡ scale_to_zero
unfolding evaluate_query_policy lookup
goes_to_zero = refl

evaluate_query_policy-Decided_example :
    Decided {f = whole} of_int 0 trino_policy
      (pos 2)
      (evaluator (pos 6) (pos 1))
      (evaluate_query_policy {f = whole} of_int 0 trino_policy (pos 2) (evaluator (pos 6) (pos 1)))
evaluate_query_policy-Decided_example =
    evaluate_query_policy-Decided {f = whole} of_int 0 trino_policy (pos 2)
      (evaluator (pos 6) (pos 1)) (omega arith) (omega arith) (omega arith)

-- A repository of idle states in a map.
abbrev idle_states : IdleRepository
idle_states = record {
  Store = List (String × IdleState);
  create_idle_state = λ s m. (put s.policy_id s m, none);
  get_idle_state = λ id m. ok (lookup id m);
  update_idle_state = λ s m. (put s.policy_id s m, none);
  delete_idle_state = λ id m. (m, some (plain 1));
  list_idle_states = λ m. err (plain 2);
}

abbrev no_states : Detector idle_states
no_states = record { states = []; store = [] }

abbrev night : List (ℕ × IdleCall)
night =
    (1, activity "p")
    ∷ (2, go_to_zero "p")
    ∷ (3, go_to_zero "r")
    ∷ (4, wake_up "r" webhook)
    ∷ (5, tick)
    ∷ []

sleeps : list_scaled_to_zero_policies (idle_calls night no_states) ≡ "p" ∷ []
unfolding idle_calls zero_ids update_idle_states mark_woken put mark_scaled_to_zero lookup
    record_activity
sleeps = refl

idle_calls-refines_example :
    is_zero (idle_calls night no_states) "p" ≡ abstract_calls night (is_zero no_states) "p"
idle_calls-refines_example = idle_calls-refines night no_states "p"

-- One policy, whose state says 0 replicas; the world counts the scalings.
abbrev zero_state : State
zero_state = record {
  policy_id = "p";
  current_replicas = pos 0;
  last_scale_time = none;
  last_scale_action = none;
  pending = [];
}

abbrev services : WakeServices whole
services = record {
  World = ℕ;
  get_policy = λ id w. if str_eq id "p" then ok (some bare_policy) else ok none;
  get_policy_state = λ id w. ok (some zero_state);
  record_history = λ h w. (w, none);
  scale = λ p n w. (suc w, none);
}

abbrev trigger : Trigger whole services idle_states
trigger = record {
  world = 0;
  detector = (mark_scaled_to_zero 1 "p" no_states).0;
  pending_wakes = [];
}

wake-Woke_example :
    Woke default_cold_start_config 9 "p" manual trigger
      (wake default_cold_start_config 9 "p" manual trigger)
wake-Woke_example = wake-Woke default_cold_start_config 9 "p" manual trigger

services-KeepsPolicies : KeepsPolicies services "p"
services-KeepsPolicies = record {
  policy_scaled = λ p n w. refl;
  policy_noted = λ h w. refl;
  state_scaled = λ p n w. refl;
  state_noted = λ h w. refl;
}

wake_again-scales_run :
    wake default_cold_start_config 20 "p" webhook
      (wake default_cold_start_config 9 "p" manual trigger).0
    ≡ scaled default_cold_start_config 20 bare_policy "p" webhook
        (wake_target default_cold_start_config bare_policy)
        (wake default_cold_start_config 9 "p" manual trigger).0
        (services.scale bare_policy
          (wake_target default_cold_start_config bare_policy)
          (wake default_cold_start_config 9 "p" manual trigger).0.world)
wake_again-scales_run =
    wake_again-scales default_cold_start_config 9 20 "p" manual webhook bare_policy
      (some zero_state) 1 trigger services-KeepsPolicies refl refl refl refl
