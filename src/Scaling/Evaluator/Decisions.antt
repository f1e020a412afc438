-- ===== src/Scaling/Evaluator/Decisions.antt =====
-- What a decision of the evaluator is grounded in.
use philotes.Common.{
  ℕ, ◌≡◌, refl, ◌⊎◌, inl, inr, true, false, Option, none, some, List, arith, Bool-cases,
}
use philotes.Common.Int.{ℤ, pos, ◌+ℤ◌, ◌≤ℤ◌, ◌<ℤ◌}
use philotes.Common.Floats.{Floats}
use philotes.Scaling.{
  scale_up, scale_down, Rule, Policy, cooldown_duration, clamp_replicas, State, is_in_cooldown,
  Decision,
}
use philotes.Scaling.Evaluator.{up_fires, down_fires, try_rules, no_decision, evaluate_policy}
use philotes.Scaling.Evaluator.Pending.{Follows, same-Follows}
use philotes.Scaling.Evaluator.Steps.{Reasoned, rules-Step}

-- The state behind an evaluation.
pub evaluate_policy-Follows :
    {f : Floats} (query : Rule f → Option (f.Float)) (now : ℕ) (policy : Policy f) (s : State)
    → Follows now s (evaluate_policy query now policy s).0
unfolding evaluate_policy
evaluate_policy-Follows query now policy s =
    let up =
      rules-Step query now policy scale_up up_fires s policy.scale_up_rules policy.scale_up_rules s
        (same-Follows now s) (λ r m. m) in
    let down =
      rules-Step query now policy scale_down (down_fires policy.scale_to_zero) s
        policy.scale_down_rules policy.scale_down_rules
        (try_rules query now policy scale_up up_fires policy.scale_up_rules s).0 up.follows
        (λ r m. m) in
    elim (Bool-cases (is_in_cooldown now s (cooldown_duration policy))) [
      | inl cold ↦ rw (cold, evaluate_policy) (same-Follows now s)
      | inr warm ↦ elim up.decides [
        | inr (d, e, _, _, _, _, _) ↦ rw (warm, evaluate_policy) (rw e up.follows)
        | inl e ↦ elim down.decides [
          | inr (d, e', _, _, _, _, _) ↦ rw (warm, evaluate_policy) (rw e (rw e' down.follows))
          | inl e' ↦ rw (warm, evaluate_policy) (rw e (rw e' down.follows))
        ]
      ]
    ]

-- Up by a rule for scaling up, or down by one for scaling down.
abbrev pub Directed :
    {f : Floats} → (Rule f → Option (f.Float)) → ℕ → Policy f → State → Decision → Type 0
Directed query now policy s d =
    ((d.action ≡ some scale_up)
      × Reasoned query now policy s policy.scale_up_rules d
      × (s.current_replicas <ℤ d.desired_replicas))
    ⊎ ((d.action ≡ some scale_down)
        × Reasoned query now policy s policy.scale_down_rules d
        × (d.desired_replicas <ℤ s.current_replicas)
        × ((pos 0 <ℤ d.desired_replicas) ⊎ (policy.scale_to_zero ≡ true)))

-- A decision to scale in a direction: it has its reason in a rule of that direction, its target lies
-- within the bounds of the policy and in that direction, and a target of 0 is allowed.
pub record Scales {f : Floats} (query : Rule f → Option (f.Float)) (now : ℕ) (policy : Policy f)
    (s : State) (d : Decision) : Type 0 where
  executes : d.should_execute ≡ true
  warm : is_in_cooldown now s (cooldown_duration policy) ≡ false
  from_current : d.current_replicas ≡ s.current_replicas
  at_least : policy.min_replicas ≤ℤ d.desired_replicas
  at_most : d.desired_replicas ≤ℤ policy.max_replicas
  directed : Directed query now policy s d

pub record Rests (s : State) (d : Decision) : Type 0 where
  executes_not : d.should_execute ≡ false
  no_action : d.action ≡ none
  stays : d.desired_replicas ≡ s.current_replicas

clamp-bounds :
    {f : Floats} (p : Policy f) (n : ℤ)
    → p.min_replicas ≤ℤ p.max_replicas
    → (p.min_replicas ≤ℤ clamp_replicas p n) × (clamp_replicas p n ≤ℤ p.max_replicas)
unfolding clamp_replicas
clamp-bounds p n h = ground arith

-- For a policy whose bounds are in order, an evaluation decides to scale only outside of the
-- cooldown, within the bounds, up by a rule for scaling up or down by one for scaling down, to 0 only
-- if the policy allows it, and then the rule's value was measured and its condition holds and has
-- lasted long enough; otherwise it decides to stay at the current replicas. The state behind it is of
-- the same policy with the same replicas and time, and its pending conditions are old ones or begin
-- now.
pub evaluate_policy-Scales :
    {f : Floats} (query : Rule f → Option (f.Float)) (now : ℕ) (policy : Policy f) (s : State)
    → policy.min_replicas ≤ℤ policy.max_replicas
    → let (s', d) = evaluate_policy query now policy s in
      Follows now s s' × (Scales query now policy s d ⊎ Rests s d)
unfolding evaluate_policy no_decision
evaluate_policy-Scales {f = f} query now policy s h =
    elim (Bool-cases (is_in_cooldown now s (cooldown_duration policy))) [
      | inl cold ↦
          rw (cold, evaluate_policy)
            (
              same-Follows now s,
              inr (record { executes_not = refl; no_action = refl; stays = refl }),
            )
      | inr warm ↦
          let up =
            rules-Step query now policy scale_up up_fires s policy.scale_up_rules
              policy.scale_up_rules s (same-Follows now s) (λ r m. m) in
          elim up.decides [
            | inr (d, e, why, act, does, cur, dir) ↦
                rw (warm, evaluate_policy)
                  (rw e (
                    up.follows,
                    inl (scales d why does warm cur (inl (act, why, ground (arith, dir)))),
                  ))
            | inl e ↦
                let s1 = (try_rules query now policy scale_up up_fires policy.scale_up_rules s).0 in
                let down =
                  rules-Step query now policy scale_down (down_fires policy.scale_to_zero) s
                    policy.scale_down_rules policy.scale_down_rules s1 up.follows (λ r m. m) in
                elim down.decides [
                  | inr (d, e', why, act, does, cur, dir) ↦
                      rw (warm, evaluate_policy)
                        (rw e (
                          rw e' (
                            down.follows,
                            inl (
                                scales d why does warm cur
                                  (inr (act, why, ground (arith, dir), ground (arith, dir)))),
                          )))
                  | inl e' ↦
                      rw (warm, evaluate_policy)
                        (rw e (
                          rw e' (
                            down.follows,
                            inr (record { executes_not = refl; no_action = refl; stays = refl }),
                          )))
                ]
          ]
    ]
  where
    scales :
        {rules : List (Rule f)} (d : Decision)
        → Reasoned query now policy s rules d
        → d.should_execute ≡ true
        → is_in_cooldown now s (cooldown_duration policy) ≡ false
        → d.current_replicas ≡ s.current_replicas
        → Directed query now policy s d
        → Scales query now policy s d
    scales d why does warm cur dir =
        let (lo, hi) = clamp-bounds policy (s.current_replicas +ℤ why.rule.scale_by) h in
        record {
          executes = does;
          warm = warm;
          from_current = cur;
          at_least = rw why.wants lo;
          at_most = rw why.wants hi;
          directed = dir;
        }
