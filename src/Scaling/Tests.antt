-- ===== src/Scaling/Tests.antt =====
-- Runs of the scaling, and each theorem about it at a concrete input.
mod Sleep
use Prim.Native.String.{String}
use text.Mathlib.Text.{◌==◌ as str_eq}
use text.Mathlib.TextEquality.{eq_iff}
use philotes.Common.{
  ℕ, ap, Bool-cases, ◌*◌, ◌^◌, ◌≡◌, refl, ◌↔◌, ◌⊎◌, inl, inr, true, false, Option, none, some, [],
  ◌∷◌, ltb, leb, ◌==◌, if◌then◌else◌, arith,
}
use philotes.Common.Errors.{GoError, plain, ok, err}
use philotes.Common.Int.{ℤ, pos, negsuc, ◌+ℤ◌, ◌*ℤ◌, wrap}
use philotes.Common.Maps.{lookup}
use philotes.Common.Floats.{Floats}
use philotes.Scaling.{
  cdc_worker, scale_up_rule, scale_down_rule, greater_than, less_than, Rule, Policy, State,
  cooldown_duration, rule_duration, rule_evaluate, clamp_replicas, is_in_cooldown,
}
use philotes.Scaling.Validation.{validate}
use philotes.Scaling.Validation.Validity.{IsPolicy, validate-IsPolicy}
use philotes.Scaling.Evaluator.{evaluate_policy, check_duration_condition, scale_decision}
use philotes.Scaling.Evaluator.Pending.{Follows}
use philotes.Scaling.Evaluator.Decisions.{Scales, Rests, evaluate_policy-Scales}
use philotes.Scaling.Manager.{Executor, Repository, System}
use philotes.Scaling.Manager.DryRun.{evaluate_policy_now, dry_run-foretells}
use philotes.Scaling.Executors.{
  keda, logging, composite, Called, Succeed, composite-Called, keda_scale, logging_scale, scale_all,
  target_key, current_of, keda_scale-current,
}
use philotes.Scaling.Lifecycle.{
  Lifecycle, idle, starts, stops, cancels, run_calls, IsSound, run_calls-IsSound, close_stop,
  overlapping_stops-panic,
}
use philotes.Common.Maps.{put}
use philotes.Common.{List, if◌then◌else◌}

-- Floats of which the rules compare integers only.
abbrev pub whole : Floats
whole = record {
  Float = ℕ;
  of_int = λ n. n;
  to_int = λ n. n;
  mul = λ a b. a * b;
  pow = λ a b. a ^ b;
  gtb = λ a b. ltb b a;
  ltb = λ a b. ltb a b;
  geb = λ a b. leb b a;
  leb = λ a b. leb a b;
  eqb = λ a b. a == b;
  is_nan = λ _. false;
}

abbrev busy_rule : Rule whole
busy_rule = record {
  id = "r1";
  rule_type = scale_up_rule;
  metric = "lag";
  operator = greater_than;
  threshold = 100;
  duration_seconds = pos 60;
  scale_by = pos 2;
}

abbrev idle_rule : Rule whole
idle_rule = record {
  id = "r2";
  rule_type = scale_down_rule;
  metric = "lag";
  operator = less_than;
  threshold = 10;
  duration_seconds = pos 0;
  scale_by = negsuc 0;
}

abbrev pub bare_policy : Policy whole
bare_policy = record {
  id = "p";
  name = "workers";
  target_type = cdc_worker;
  target_id = none;
  min_replicas = pos 1;
  max_replicas = pos 4;
  cooldown_seconds = pos 300;
  max_hourly_cost = none;
  scale_to_zero = false;
  enabled = true;
  scale_up_rules = [];
  scale_down_rules = [];
  schedules = [];
}

abbrev policy : Policy whole
policy = record bare_policy { scale_up_rules = busy_rule ∷ []; scale_down_rules = idle_rule ∷ [] }

validate-IsPolicy_example : (validate policy ≡ none) ↔ IsPolicy policy
validate-IsPolicy_example = validate-IsPolicy policy

policy_passes : validate policy ≡ none
unfolding validate
policy_passes = refl

-- The lag is 500, and has been high since the first second.
abbrev lagging : Rule whole → Option ℕ
lagging r = some 500

abbrev minute : ℕ
minute = 60000000000

abbrev state : State
state = record {
  policy_id = "p";
  current_replicas = pos 3;
  last_scale_time = none;
  last_scale_action = none;
  pending = ("r1", 1) ∷ [];
}

evaluate_policy-Scales_example :
    let (s, d) = evaluate_policy lagging (2 * minute) policy state in
    Follows (2 * minute) state s × (Scales lagging (2 * minute) policy state d ⊎ Rests state d)
evaluate_policy-Scales_example =
    evaluate_policy-Scales lagging (2 * minute) policy state (omega arith)

-- The target would be 5 replicas, and is cut to 4.
lag_scales_up : (evaluate_policy lagging (2 * minute) policy state).1.desired_replicas ≡ pos 4
unfolding evaluate_policy cooldown_duration rule_duration rule_evaluate clamp_replicas
    is_in_cooldown check_duration_condition scale_decision lookup ◌+ℤ◌ ◌*ℤ◌ wrap
lag_scales_up = refl

-- A repository that keeps the state of its one policy, and an executor that counts.
abbrev repo : Repository whole
repo = record {
  Store = State;
  list_enabled = λ st. ok (bare_policy ∷ []);
  get_policy_by_name = λ name st. ok bare_policy;
  get_rules_for_policy = λ id st. ok (busy_rule ∷ idle_rule ∷ []);
  get_state = λ id st. elim (str_eq st.policy_id id) [ true ↦ ok st | false ↦ err (plain 30) ];
  create_state = λ s st. (s, none);
  update_state = λ s st. (s, none);
  create_history = λ h st. (st, none);
}

abbrev executor : Executor
executor = record {
  Target = ℤ;
  get_current_replicas = λ kind id n. ok n;
  scale = λ kind id n dry_run old. (n, none);
}

abbrev system : System repo executor
system = record { store = state; target = pos 3 }

dry_run-foretells_example :
    let (dry, told) = evaluate_policy_now lagging (2 * minute) "workers" true system in
    let (wet, made) = evaluate_policy_now lagging (2 * minute) "workers" false system in
    (dry.target ≡ pos 3) × ((made ≡ told) ⊎ ((x : GoError) × (made ≡ err x)))
dry_run-foretells_example = dry_run-foretells lagging (2 * minute) "workers" system

abbrev both : List Executor
both = keda ∷ logging ∷ []

two_told :
    let (t, r) = (composite both).scale cdc_worker none (pos 5) false ([], ([], tt)) in
    Called both cdc_worker none (pos 5) false ([], ([], tt)) t
    × ((r ≡ none) ↔ Succeed both cdc_worker none (pos 5) false ([], ([], tt)))
two_told = composite-Called both cdc_worker none (pos 5) false ([], ([], tt))

-- A dry run leaves the KEDA executor, but not the one that logs.
dry_run_is_logged :
    ((composite both).scale cdc_worker none (pos 5) true ([], ([], tt))).0
    ≡ ([], (("cdc-worker", pos 5) ∷ [], tt))
unfolding scale_all keda_scale logging_scale put target_key
dry_run_is_logged = refl

keda_scale-current_run :
    let m = (keda_scale cdc_worker (some "a") (pos 5) false []).0 in
    current_of cdc_worker (some "b") m ≡ (
      if false
      then pos 1
      else if str_eq (target_key cdc_worker (some "a")) (target_key cdc_worker (some "b"))
      then pos 5
      else pos 1)
unfolding current_of lookup
keda_scale-current_run =
    keda_scale-current cdc_worker cdc_worker (some "a") (some "b") (pos 5) false []

run_calls-IsSound_example :
    (l : Lifecycle) × (run_calls idle (starts ∷ cancels ∷ stops ∷ starts ∷ []) ≡ some l) × IsSound l
run_calls-IsSound_example = run_calls-IsSound (starts ∷ cancels ∷ stops ∷ starts ∷ [])

abbrev at_work : Lifecycle
at_work = record { running = true; stop_closed = false; loops = 1 }

overlapping_stops-panic_run :
    (l : Lifecycle) × (close_stop at_work ≡ some (l, true)) × (close_stop l ≡ none)
overlapping_stops-panic_run = overlapping_stops-panic at_work (inl (refl, refl, omega arith)) refl
