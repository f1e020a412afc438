-- ===== src/Alerting/Manager.antt =====
-- internal/alerting/manager.go: the manager that evaluates the rules, fires alerts and resolves them.
-- The repository (repository.go), the notifier (notifier.go) and Prometheus are services on one world.
pub mod Resolution
pub mod Measured
pub mod Streaks
use Prim.Native.String.{String}
use philotes.Common.{
  ℕ, Bool, true, false, not, ◌&&◌, ◌||◌, Option, none, some, List, [], ◌∷◌, if◌then◌else◌,
}
use philotes.Common.Errors.{GoError, wrapped, Fallible, ok, err}
use philotes.Common.Int.{ℤ, pos, sub_ℕ, ltb_ℤ, ◌*ℤ◌}
use philotes.Common.Floats.{Floats}
use philotes.Common.Maps.{lookup, remove, put}
use philotes.Alerting.{
  Status, firing, resolved, EventType, fired_event, resolved_event, Labels, AlertRule,
  AlertInstance, AlertHistory, EvaluationResult, Metric, AlertSilence, is_active, matches,
  evaluate_metrics,
}

-- `is_not_found` is the search of an error's text. A repository that finds no instance returns an
-- error, or none.
pub record Services (f : Floats) : Type 1 where
  pub World : Type 0
  pub fingerprint : String → Labels → String
  pub is_not_found : GoError → Bool
  pub query : AlertRule f → World → Fallible (List (Metric f))
  pub list_rules : World → Fallible (List (AlertRule f))
  pub get_rule : String → World → Fallible (AlertRule f)
  pub get_instance_by_fingerprint : String → String → World → Fallible (Option (AlertInstance f))
  pub list_firing : World → Fallible (List (AlertInstance f))
  pub create_instance : AlertInstance f → World → World × Fallible (AlertInstance f)
  pub update_instance :
      String → Status → Option (f.Float) → Option ℕ → World → World × Option GoError
  pub create_history : AlertHistory f → World → World × Option GoError
  pub list_silences : World → Fallible (List AlertSilence)
  pub notify : AlertInstance f → AlertRule f → EventType → World → World × Option GoError
  pub clear_last_notified : String → World → World

-- The numbers by which the wrapped errors are known.
abbrev pub lookup_failed : ℕ
lookup_failed = 40

abbrev pub create_failed : ℕ
create_failed = 41

abbrev pub update_failed : ℕ
update_failed = 42

abbrev pub list_failed : ℕ
list_failed = 43

-- `pending` is the map `pendingAlerts`: fingerprints with the time of their first trigger.
pub record Manager (f : Floats) (sv : Services f) : Type 0 where
  pub world : sv.World
  pub pending : List (String × ℕ)

abbrev pub nanos : ℤ → ℤ
nanos seconds = seconds *ℤ pos 1000000000

any_silence : ℕ → List AlertSilence → Labels → Bool
any_silence now [] labels = false
any_silence now (s ∷ ss) labels =
    let rest = any_silence now ss labels in (is_active now s && matches s labels) || rest

abbrev pub new_instance :
    {f : Floats} → ℕ → AlertRule f → EvaluationResult f → String → AlertInstance f
new_instance now rule r fp = record {
  id = "";
  rule_id = rule.id;
  fingerprint = fp;
  status = firing;
  labels = r.labels;
  annotations = rule.annotations;
  current_value = some r.value;
  fired_at = now;
  resolved_at = none;
}

abbrev pub is_firing : Status → Bool
is_firing firing = true
is_firing resolved = false

module _ {f : Floats} {sv : Services f} where
  -- A failure to list the silences is logged, and then nothing is silenced.
  unfoldable pub check_silenced : ℕ → Labels → Manager f sv → Bool
  unfolding any_silence
  check_silenced now labels m = elim (sv.list_silences m.world) [
    | err x ↦ false
    | ok ss ↦ any_silence now ss labels
  ]

  -- What `fireAlert` does for an alert that has an instance which is firing.
  unfoldable pub refire :
      AlertRule f
      → EvaluationResult f
      → AlertInstance f
      → Manager f sv
      → Manager f sv × Option GoError
  refire rule r existing m =
      let updated = (sv.update_instance existing.id firing (some r.value) none m.world).0 in
      let (world, x) = sv.notify existing rule fired_event updated in
      (record m { world = world }, x)

  -- What it does behind the call that creates an instance.
  note_created :
      AlertRule f
      → EvaluationResult f
      → String
      → Manager f sv
      → sv.World × Fallible (AlertInstance f)
      → Manager f sv × Option GoError
  note_created rule r fp m (world, err x) =
      (record m { world = world }, some (wrapped create_failed x))
  note_created rule r fp m (world, ok created) =
      let entry : AlertHistory f = record {
        alert_id = created.id;
        rule_id = rule.id;
        event_type = fired_event;
        value = some r.value;
      } in
      let noted = (sv.create_history entry world).0 in
      let (told, x) = sv.notify created rule fired_event noted in
      (record { world = told; pending = remove fp m.pending }, x)

  unfoldable pub create_alert :
      ℕ → AlertRule f → EvaluationResult f → String → Manager f sv → Manager f sv × Option GoError
  unfolding note_created
  create_alert now rule r fp m =
      note_created rule r fp m (sv.create_instance (new_instance now rule r fp) m.world)

  unfoldable pub fire_alert :
      ℕ → AlertRule f → EvaluationResult f → String → Manager f sv → Manager f sv × Option GoError
  unfolding check_silenced refire create_alert
  fire_alert now rule r fp m =
      if check_silenced now r.labels m
      then (m, none)
      else elim (sv.get_instance_by_fingerprint rule.id fp m.world) [
        | err x ↦
            if not (sv.is_not_found x)
            then (m, some (wrapped lookup_failed x))
            else create_alert now rule r fp m
        | ok none ↦ create_alert now rule r fp m
        | ok (some existing) ↦
            if is_firing existing.status
            then refire rule r existing m
            else create_alert now rule r fp m
      ]

  unfoldable pub handle_firing :
      ℕ → AlertRule f → EvaluationResult f → String → Manager f sv → Manager f sv × Option GoError
  unfolding fire_alert
  handle_firing now rule r fp m = elim (lookup fp m.pending) [
    | none ↦ (record m { pending = put fp now m.pending }, none)
    | some t ↦
        if ltb_ℤ (sub_ℕ now t) (nanos rule.duration_seconds)
        then (m, none)
        else fire_alert now rule r fp m
  ]

  unfoldable pub handle_not_firing : String → Manager f sv → Manager f sv × Option GoError
  handle_not_firing fp m = (record m { pending = remove fp m.pending }, none)

  unfoldable pub process_evaluation :
      ℕ → AlertRule f → EvaluationResult f → String → Manager f sv → Manager f sv × Option GoError
  unfolding handle_firing handle_not_firing
  process_evaluation now rule r fp m =
      if r.should_fire then handle_firing now rule r fp m else handle_not_firing fp m

  -- The results of one rule, with the fingerprints that are seen. Errors are logged.
  unfoldable pub process_results :
      ℕ
      → AlertRule f
      → List (EvaluationResult f)
      → List String × Manager f sv
      → List String × Manager f sv
  unfolding process_evaluation
  process_results now rule [] (seen, m) = (seen, m)
  process_results now rule (r ∷ rs) (seen, m) =
      let fp = sv.fingerprint rule.id r.labels in
      process_results now rule rs (fp ∷ seen, (process_evaluation now rule r fp m).0)

  -- The loop over the rules. A rule that cannot be evaluated is passed over.
  unfoldable pub evaluate_each :
      ℕ → List (AlertRule f) → List String × Manager f sv → List String × Manager f sv
  unfolding process_results
  evaluate_each now [] (seen, m) = (seen, m)
  evaluate_each now (rule ∷ rules) (seen, m) = elim (sv.query rule m.world) [
    | err x ↦ evaluate_each now rules (seen, m)
    | ok metrics ↦
        evaluate_each now rules (process_results now rule (evaluate_metrics rule metrics) (seen, m))
  ]
