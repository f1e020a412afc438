-- ===== src/Alerting/Tests.antt =====
-- Runs of the alert manager, and each theorem about it at a concrete input.
mod Notices
use philotes.Common.{
  ℕ, ◌*◌, ◌^◌, ◌≡◌, ◌≢◌, refl, true, false, none, List, [], ◌∷◌, ltb, leb, ◌==◌, arith,
}
use philotes.Common.Errors.{plain, Fallible, ok, err}
use philotes.Common.Int.{pos, sub_ℕ, ◌≤ℤ◌, ◌*ℤ◌, wrap}
use philotes.Common.Floats.{Floats}
use philotes.Common.Maps.{lookup, put, remove}
use philotes.Alerting.{
  greater_than, critical, firing, AlertRule, AlertInstance, EvaluationResult, Metric,
  evaluate_metrics,
}
use philotes.Alerting.Manager.{
  evaluate_each, Services, Manager, nanos, process_results, process_evaluation, handle_firing,
  fire_alert, create_alert, check_silenced,
}
use philotes.Alerting.Manager.Measured.{evaluate_rules-resolves}
use philotes.Alerting.Manager.Resolution.{
  evaluate_rules, resolve_all, contains, outage_resolves_firing,
}
use philotes.Alerting.Manager.Streaks.{Observation, Streak, after, outside-Streak}

-- Floats of which the rules compare integers only.
abbrev pub whole : Floats
whole = record {
  Float = ℕ;
  of_int = λ n. n;
  to_int = λ n. n;
  mul = λ a b. a * b;
  pow = λ a b. a ^ b;
  gtb = λ a b. ltb b a;
  ltb = λ a b. ltb a b;
  geb = λ a b. leb b a;
  leb = λ a b. leb a b;
  eqb = λ a b. a == b;
  is_nan = λ _. false;
}

abbrev pub rule : AlertRule whole
rule = record {
  id = "r";
  name = "lag";
  metric_name = "lag";
  operator = greater_than;
  threshold = 100;
  duration_seconds = pos 60;
  severity = critical;
  labels = [];
  annotations = [];
  enabled = true;
}

abbrev pub alert : AlertInstance whole
alert = record {
  id = "a";
  rule_id = "r";
  fingerprint = "r";
  status = firing;
  labels = [];
  annotations = [];
  current_value = none;
  fired_at = 1;
  resolved_at = none;
}

-- The world is the list of the firing alerts; `answer` is what Prometheus returns.
abbrev services : Fallible (List (Metric whole)) → Services whole
services answer = record {
  World = List (AlertInstance whole);
  fingerprint = λ id labels. id;
  is_not_found = λ x. true;
  query = λ r w. answer;
  list_rules = λ w. ok (rule ∷ []);
  get_rule = λ id w. ok rule;
  get_instance_by_fingerprint = λ id fp w. ok none;
  list_firing = λ w. ok w;
  create_instance = λ a w. (a ∷ w, ok a);
  update_instance = λ id status value at w. ([], none);
  create_history = λ h w. (w, none);
  list_silences = λ w. ok [];
  notify = λ a r event w. (w, none);
  clear_last_notified = λ fp w. w;
}

abbrev away : Services whole
away = services (err (plain 1))

abbrev calm : Services whole
calm = services (ok (record { labels = []; value = 5 } ∷ []))

abbrev in_outage : Manager whole away
in_outage = record { world = alert ∷ []; pending = ("r", 1) ∷ [] }

abbrev in_calm : Manager whole calm
in_calm = record { world = alert ∷ []; pending = [] }

outage_resolves_firing_example : evaluate_rules 9 in_outage ≡ (
  record { world = resolve_all away 9 (alert ∷ []) (alert ∷ []); pending = ("r", 1) ∷ [] },
  none,
)
outage_resolves_firing_example =
    outage_resolves_firing 9 in_outage rule [] (alert ∷ []) refl ((plain 1, refl), tt) refl

-- Its condition is not met, and it stays; of the other one the series is gone.
abbrev stale : AlertInstance whole
stale = record alert { fingerprint = "q" }

abbrev in_change : Manager whole calm
in_change = record { world = alert ∷ stale ∷ []; pending = ("r", 1) ∷ [] }

evaluate_rules-resolves_example :
    evaluate_rules 9 in_change
    ≡ (record { world = resolve_all calm 9 (stale ∷ []) (alert ∷ stale ∷ []); pending = [] }, none)
unfolding evaluate_each process_results contains remove evaluate_metrics
evaluate_rules-resolves_example =
    evaluate_rules-resolves 9 (λ r. ok (record { labels = []; value = 5 } ∷ [])) in_change rule []
      (alert ∷ stale ∷ []) (λ r w. refl) refl refl

abbrev minute : ℕ
minute = 60000000000

abbrev high : EvaluationResult whole
high = record { value = 500; labels = []; should_fire = true }

abbrev seen_at : ℕ → Observation whole
seen_at now = record { now = now; rule = rule; result = high; fp = "r" }

-- The alert is stored by the third observation, more than a minute behind the first.
third_stores :
    (after calm [] (seen_at (2 * minute) ∷ seen_at minute ∷ seen_at 1 ∷ [])).world
    ≢ (after calm [] (seen_at minute ∷ seen_at 1 ∷ [])).world
unfolding after process_evaluation handle_firing fire_alert create_alert check_silenced lookup put
    remove ◌*ℤ◌ wrap
third_stores e = ground (arith, e)

outside-Streak_example :
    (true ≡ true)
    × ((t : ℕ) × Streak "r" t (seen_at minute ∷ seen_at 1 ∷ [])
        × (nanos (pos 60) ≤ℤ sub_ℕ (2 * minute) t))
outside-Streak_example =
    outside-Streak calm [] (seen_at minute ∷ seen_at 1 ∷ []) (seen_at (2 * minute)) third_stores
