-- ===== src/Alerting/Manager/Measured.antt =====
-- internal/alerting/manager.go: which firing alerts a cycle resolves.
use Prim.Native.String.{String}
use mathlib.Core.Path.{fun_ext}
use philotes.Common.{
  ℕ, ◌≡◌, refl, sym, ap, ◌∙◌, Bool, true, false, not, ◌||◌, none, List, [], ◌∷◌, ◌++◌, map, keep,
  arith, Bool-cases, inl, inr,
}
use philotes.Common.Errors.{Fallible, ok, err, Fallible-cases}
use philotes.Common.Floats.{Floats}
use philotes.Alerting.{AlertRule, AlertInstance, EvaluationResult, Metric, evaluate_metrics}
use philotes.Alerting.Manager.{
  Services, Manager, process_evaluation, process_results, evaluate_each,
}
use philotes.Alerting.Manager.Resolution.{
  contains, resolve_alert, resolve_all, resolve_unseen, check_for_resolutions, evaluate_rules,
}

module _ {f : Floats} (sv : Services f) where
  -- The fingerprints of the results of a rule.
  abbrev pub fingerprints : AlertRule f → List (EvaluationResult f) → List String
  fingerprints rule = map (λ r. sv.fingerprint rule.id r.labels)

  -- Those of all the series that the queries give, whether their conditions are met or not.
  abbrev pub measured :
      (AlertRule f → Fallible (List (Metric f))) → List (AlertRule f) → List String
  measured answer [] = []
  measured answer (rule ∷ rules) =
      elim (answer rule) [
        | err x ↦ []
        | ok metrics ↦ fingerprints rule (evaluate_metrics rule metrics)
      ]
      ++ measured answer rules

contains-++ :
    (fp : String) (xs ys : List String)
    → contains fp (xs ++ ys) ≡ (contains fp xs || contains fp ys)
unfolding contains
contains-++ fp [] ys = refl
contains-++ fp (x ∷ xs) ys = ground (arith, contains-++ fp xs ys)

resolve_unseen-keep :
    {f : Floats} (sv : Services f) (now : ℕ) (seen : List String) (alerts : List (AlertInstance f))
    (world : sv.World)
    → resolve_unseen sv now seen alerts world
      ≡ resolve_all sv now (keep (λ a. not (contains a.fingerprint seen)) alerts) world
unfolding resolve_unseen resolve_all
resolve_unseen-keep sv now seen [] world = refl
resolve_unseen-keep sv now seen (a ∷ alerts) world =
    elim (Bool-cases (contains a.fingerprint seen)) [
      | inl e ↦ rw (e, resolve_unseen) (resolve_unseen-keep sv now seen alerts world)
      | inr e ↦
          rw (e, resolve_unseen, resolve_all)
            (resolve_unseen-keep sv now seen alerts (resolve_alert sv now a world).0)
    ]

or_turn : (a b c : Bool) → (b || (a || c)) ≡ ((a || b) || c)
or_turn true true c = refl
or_turn true false c = refl
or_turn false true c = refl
or_turn false false c = refl

or_nothing : (a : Bool) → (a || false) ≡ a
or_nothing true = refl
or_nothing false = refl

module _ {f : Floats} {sv : Services f} where
  process_results-contains :
      (now : ℕ) (rule : AlertRule f) (fp : String) (rs : List (EvaluationResult f))
      (seen : List String) (m : Manager f sv)
      → contains fp (process_results now rule rs (seen, m)).0
        ≡ (contains fp (fingerprints sv rule rs) || contains fp seen)
  unfolding process_results contains
  process_results-contains now rule fp [] seen m = refl
  process_results-contains now rule fp (r ∷ rs) seen m =
      let x = sv.fingerprint rule.id r.labels in
      let ih =
        process_results-contains now rule fp rs (x ∷ seen) (process_evaluation now rule r x m).0 in
      ground (arith, ih)

  evaluate_each-contains :
      (now : ℕ) (answer : AlertRule f → Fallible (List (Metric f)))
      → ((r : AlertRule f) (w : sv.World) → sv.query r w ≡ answer r)
      → (fp : String) (rules : List (AlertRule f)) (seen : List String) (m : Manager f sv)
      → contains fp (evaluate_each now rules (seen, m)).0
        ≡ (contains fp (measured sv answer rules) || contains fp seen)
  unfolding evaluate_each contains
  evaluate_each-contains now answer law fp [] seen m = refl
  evaluate_each-contains now answer law fp (rule ∷ rules) seen m =
      elim (Fallible-cases (answer rule)) [
        | inr (x, e) ↦
            rw (law rule m.world ∙ e, e, evaluate_each)
              (evaluate_each-contains now answer law fp rules seen m)
        | inl (metrics, e) ↦
            let rs = evaluate_metrics rule metrics in
            let next = process_results now rule rs (seen, m) in
            let ih = evaluate_each-contains now answer law fp rules next.0 next.1 in
            let one = process_results-contains now rule fp rs seen m in
            let both = contains-++ fp (fingerprints sv rule rs) (measured sv answer rules) in
            rw (law rule m.world ∙ e, e, evaluate_each)
              (ih
                ∙ ap (λ b. contains fp (measured sv answer rules) || b) one
                ∙ or_turn (contains fp (fingerprints sv rule rs))
                    (contains fp (measured sv answer rules)) (contains fp seen)
                ∙ ap (λ b. b || contains fp seen) (sym both))
      ]

  -- If there are enabled rules, and a query answers the same throughout a cycle whatever is stored, then
  -- the cycle evaluates the rules and then calls `resolveAlert`, in the order of the list, for just
  -- those of the alerts listed as firing whose series no query gave. For an alert whose series is given
  -- it is not called, also if its condition is no longer met.
  pub evaluate_rules-resolves :
      (now : ℕ) (answer : AlertRule f → Fallible (List (Metric f))) (m : Manager f sv)
      (rule : AlertRule f) (rules : List (AlertRule f)) (alerts : List (AlertInstance f))
      → ((r : AlertRule f) (w : sv.World) → sv.query r w ≡ answer r)
      → sv.list_rules m.world ≡ ok (rule ∷ rules)
      → sv.list_firing (evaluate_each now (rule ∷ rules) ([], m)).1.world ≡ ok alerts
      → let behind = (evaluate_each now (rule ∷ rules) ([], m)).1 in
        let gone =
          keep (λ a. not (contains a.fingerprint (measured sv answer (rule ∷ rules)))) alerts in
        evaluate_rules now m
        ≡ (record behind { world = resolve_all sv now gone behind.world }, none)
  unfolding evaluate_rules contains
  evaluate_rules-resolves now answer m rule rules alerts law listed firing_ =
      let (seen, behind) = evaluate_each now (rule ∷ rules) ([], m) in
      let same : (a : AlertInstance f)
          → not (contains a.fingerprint seen)
            ≡ not (contains a.fingerprint (measured sv answer (rule ∷ rules))) =
        λ a. ap not (
          evaluate_each-contains now answer law a.fingerprint (rule ∷ rules) [] m
          ∙ or_nothing (contains a.fingerprint (measured sv answer (rule ∷ rules)))) in
      let gone =
        resolve_unseen-keep sv now seen alerts behind.world
        ∙ ap (λ p. resolve_all sv now (keep p alerts) behind.world) (fun_ext same) in
      rw (listed, evaluate_rules)
        (rw (firing_, check_for_resolutions)
          (ap (λ w. (record { world = w; pending = behind.pending }, none)) gone))
