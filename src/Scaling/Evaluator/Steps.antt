-- ===== src/Scaling/Evaluator/Steps.antt =====
-- What a loop over rules brings about.
use philotes.Common.{
  ℕ, ◌≡◌, refl, sym, ◌⊎◌, inl, inr, Bool, true, Option, none, some, List, [], ◌∷◌, Bool-cases,
  Option-cases,
}
use mathlib.Core.List.{Memᴰ}
use philotes.Common.Int.{ℤ, pos, sub_ℕ, ◌+ℤ◌, ◌≤ℤ◌}
use philotes.Common.Maps.{lookup}
use philotes.Common.Floats.{Floats}
use philotes.Scaling.{
  Action, Rule, Policy, rule_duration, rule_evaluate, clamp_replicas, State, Decision,
}
use philotes.Scaling.Evaluator.{
  check_duration_condition, try_measured, try_rule, try_rules, scale_decision,
}
use philotes.Scaling.Evaluator.Pending.{
  Follows, same-Follows, update-Follows, clear-Follows, trans-Follows, met-lasts,
}

-- The rule whose condition is met, with its value: its condition lasts at least as long as required, by
-- an entry of the state before the evaluation, or no time is required.
pub record Reasoned {f : Floats} (query : Rule f → Option (f.Float)) (now : ℕ) (policy : Policy f)
    (s : State) (rules : List (Rule f)) (d : Decision) : Type 0 where
  pub rule : Rule f
  pub listed : Memᴰ rule rules
  pub value : f.Float
  pub measured : query rule ≡ some value
  pub holds : rule_evaluate rule value ≡ true
  pub lasts :
      (rule_duration rule ≤ℤ pos 0)
      ⊎ ((t : ℕ) × (lookup rule.id s.pending ≡ some t) × (rule_duration rule ≤ℤ sub_ℕ now t))
  pub names : d.triggered_by ≡ some rule.id
  pub wants : d.desired_replicas ≡ clamp_replicas policy (s.current_replicas +ℤ rule.scale_by)

module _ {f : Floats} (query : Rule f → Option (f.Float)) (now : ℕ) (policy : Policy f)
    (action : Action) (fires : ℤ → ℤ → Bool) where
  -- What a rule brings about: a state that follows, and a decision with its reason or none.
  pub record Step (s : State) (rules : List (Rule f)) (r : State × Option Decision) : Type 0 where
    pub follows : Follows now s r.0
    pub decides :
        (r.1 ≡ none)
        ⊎ ((d : Decision) × (r.1 ≡ some d)
            × Reasoned query now policy s rules d
            × (d.action ≡ some action)
            × (d.should_execute ≡ true)
            × (d.current_replicas ≡ s.current_replicas)
            × (fires s.current_replicas d.desired_replicas ≡ true))

module _ {f : Floats} (query : Rule f → Option (f.Float)) (now : ℕ) (policy : Policy f)
    (action : Action) (fires : ℤ → ℤ → Bool) (s : State) (all : List (Rule f)) where
  waits :
      (s' s'' : State)
      → Follows now s s'
      → Follows now s' s''
      → Step query now policy action fires s all (s'', none)
  waits s' s'' h k = record { follows = trans-Follows now s s' s'' h k; decides = inl refl }

  measured-Step :
      (rule : Rule f) (s' : State) (value : f.Float)
      → Follows now s s'
      → Memᴰ rule all
      → query rule ≡ some value
      → Step query now policy action fires s all
          (try_measured query now policy action fires rule s' value)
  unfolding try_measured scale_decision
  measured-Step rule s' value h m q = elim (Bool-cases (rule_evaluate rule value)) [
    | inr off ↦ rw (off, try_measured) (waits s' _ h (clear-Follows now s' rule.id))
    | inl on ↦ elim (Bool-cases (check_duration_condition now s' rule.id (rule_duration rule)).0) [
      | inr short ↦ rw (on, try_measured) (rw short (waits s' _ h (update-Follows now s' rule.id)))
      | inl met ↦
          let replicas = clamp_replicas policy (s'.current_replicas +ℤ rule.scale_by) in
          elim (Bool-cases (fires s'.current_replicas replicas)) [
            | inr no_ ↦
                rw (on, try_measured) (rw met (rw no_ (waits s' s' h (same-Follows now s'))))
            | inl yes_ ↦
                let elapsed = (check_duration_condition now s' rule.id (rule_duration rule)).1 in
                rw (on, try_measured)
                  (rw met (
                    rw yes_ (record {
                      follows = h;
                      decides = inr (
                        scale_decision s' action replicas rule.id elapsed,
                        refl,
                        record {
                          rule = rule;
                          listed = m;
                          value = value;
                          measured = q;
                          holds = on;
                          lasts = met-lasts now s s' rule.id (rule_duration rule) h met;
                          names = refl;
                          wants = rw h.replicas_kept;
                        },
                        refl,
                        refl,
                        h.replicas_kept,
                        rw (sym h.replicas_kept) yes_,
                      );
                    })))
          ]
    ]
  ]

  rule-Step :
      (rule : Rule f) (s' : State)
      → Follows now s s'
      → Memᴰ rule all
      → Step query now policy action fires s all (try_rule query now policy action fires rule s')
  unfolding try_rule
  rule-Step rule s' h m = elim (Option-cases (query rule)) [
    | inl e ↦ rw (e, try_rule) (waits s' s' h (same-Follows now s'))
    | inr (value, e) ↦ rw (e, try_rule) (measured-Step rule s' value h m e)
  ]

  pub rules-Step :
      (rules : List (Rule f)) (s' : State)
      → Follows now s s'
      → ((r : Rule f) → Memᴰ r rules → Memᴰ r all)
      → Step query now policy action fires s all (try_rules query now policy action fires rules s')
  unfolding try_rules
  rules-Step [] s' h incl = waits s' s' h (same-Follows now s')
  rules-Step (rule ∷ rules) s' h incl =
      let one = rule-Step rule s' h (incl rule (Memᴰ.head refl)) in
      elim one.decides [
        | inl e ↦
            rw (e, try_rules)
              (rules-Step rules (try_rule query now policy action fires rule s').0 one.follows
                (λ r m. incl r (Memᴰ.tail m)))
        | inr (d, e, why, a, b, c, g) ↦
            rw (e, try_rules)
              (record { follows = one.follows; decides = inr (d, refl, why, a, b, c, g) })
      ]
