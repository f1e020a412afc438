-- ===== src/Alerting/Manager/Resolution.antt =====
-- The end of a cycle: alerts that were not seen are resolved.
use Prim.Native.String.{String}
use text.Mathlib.Text.{◌==◌ as str_eq}
use philotes.Common.{
  ℕ, ◌≡◌, refl, ap, Bool, false, not, ◌||◌, Option, none, some, List, [], ◌∷◌, All, if◌then◌else◌,
}
use philotes.Common.Errors.{GoError, wrapped, ok, err}
use philotes.Common.Floats.{Floats}
use philotes.Alerting.{resolved, resolved_event, AlertRule, AlertInstance, AlertHistory}
use philotes.Alerting.Manager.{Services, Manager, update_failed, list_failed, evaluate_each}

unfoldable pub contains : String → List String → Bool
contains fp [] = false
contains fp (x ∷ xs) = let rest = contains fp xs in str_eq x fp || rest

module _ {f : Floats} (sv : Services f) where
  -- What `resolveAlert` does once the instance is updated and its rule is known.
  note_resolved : ℕ → AlertInstance f → AlertRule f → sv.World → sv.World × Option GoError
  note_resolved now alert rule world =
      let entry : AlertHistory f = record {
        alert_id = alert.id;
        rule_id = alert.rule_id;
        event_type = resolved_event;
        value = none;
      } in
      let cleared = sv.clear_last_notified alert.fingerprint (sv.create_history entry world).0 in
      sv.notify (record alert { status = resolved; resolved_at = some now }) rule resolved_event
        cleared

  unfoldable pub resolve_alert : ℕ → AlertInstance f → sv.World → sv.World × Option GoError
  unfolding note_resolved
  resolve_alert now alert world =
      let (updated, r) = sv.update_instance alert.id resolved none (some now) world in
      elim r [
        | some x ↦ (updated, some (wrapped update_failed x))
        | none ↦ elim (sv.get_rule alert.rule_id updated) [
          | err x ↦ (updated, none)
          | ok rule ↦ note_resolved now alert rule updated
        ]
      ]

  -- Each alert resolved, one after the other.
  unfoldable pub resolve_all : ℕ → List (AlertInstance f) → sv.World → sv.World
  unfolding resolve_alert
  resolve_all now [] world = world
  resolve_all now (alert ∷ alerts) world = resolve_all now alerts (resolve_alert now alert world).0

  -- The loop over the firing alerts. Errors are logged.
  unfoldable pub resolve_unseen : ℕ → List String → List (AlertInstance f) → sv.World → sv.World
  unfolding resolve_alert contains
  resolve_unseen now seen [] world = world
  resolve_unseen now seen (alert ∷ alerts) world =
      resolve_unseen now seen alerts
        (if not (contains alert.fingerprint seen) then (resolve_alert now alert world).0 else world)

-- What was not seen is gone through as if there were no list of what was.
all_resolved :
    {f : Floats} (sv : Services f) (now : ℕ) (alerts : List (AlertInstance f)) (world : sv.World)
    → resolve_unseen sv now [] alerts world ≡ resolve_all sv now alerts world
unfolding resolve_unseen contains resolve_all
all_resolved sv now [] world = refl
all_resolved sv now (a ∷ alerts) world = all_resolved sv now alerts (resolve_alert sv now a world).0

module _ {f : Floats} {sv : Services f} where
  unfoldable pub check_for_resolutions :
      ℕ → List String → Manager f sv → Manager f sv × Option GoError
  unfolding resolve_unseen
  check_for_resolutions now seen m = elim (sv.list_firing m.world) [
    | err x ↦ (m, some (wrapped list_failed x))
    | ok alerts ↦ (record m { world = resolve_unseen sv now seen alerts m.world }, none)
  ]

  -- `evaluateRules`: with no rule nothing is resolved.
  unfoldable pub evaluate_rules : ℕ → Manager f sv → Manager f sv × Option GoError
  unfolding evaluate_each check_for_resolutions
  evaluate_rules now m = elim (sv.list_rules m.world) [
    | err x ↦ (m, some (wrapped list_failed x))
    | ok [] ↦ (m, none)
    | ok (rule ∷ rules) ↦
        let (seen, m') = evaluate_each now (rule ∷ rules) ([], m) in
        ((check_for_resolutions now seen m').0, none)
  ]

  none_evaluated :
      (now : ℕ) (rules : List (AlertRule f)) (seen : List String) (m : Manager f sv)
      → All (λ rule. (x : GoError) × (sv.query rule m.world ≡ err x)) rules
      → evaluate_each now rules (seen, m) ≡ (seen, m)
  unfolding evaluate_each
  none_evaluated now [] seen m h = refl
  none_evaluated now (rule ∷ rules) seen m ((x, e), h) =
      rw (e, evaluate_each) (none_evaluated now rules seen m h)

  -- If there are enabled rules and the query of every one fails, as when Prometheus is away, then a
  -- cycle calls `resolveAlert` for every alert that is listed as firing, does nothing else outside,
  -- and leaves the pending alerts.
  pub outage_resolves_firing :
      (now : ℕ) (m : Manager f sv) (rule : AlertRule f) (rules : List (AlertRule f))
      (alerts : List (AlertInstance f))
      → sv.list_rules m.world ≡ ok (rule ∷ rules)
      → All (λ rule. (x : GoError) × (sv.query rule m.world ≡ err x)) (rule ∷ rules)
      → sv.list_firing m.world ≡ ok alerts
      → evaluate_rules now m
        ≡ (record { world = resolve_all sv now alerts m.world; pending = m.pending }, none)
  unfolding evaluate_rules
  outage_resolves_firing now m rule rules alerts listed out firing_ =
      rw (listed, evaluate_rules)
        (rw (none_evaluated now (rule ∷ rules) [] m out) (
          rw (firing_, check_for_resolutions)
            (ap (λ w. (record { world = w; pending = m.pending }, none))
              (all_resolved sv now alerts m.world))))
