-- ===== src/Scaling/Evaluator.antt =====
-- internal/scaling/evaluator.go: the evaluation of a policy's rules.
-- `query r` is the answer to the query that is made for the rule r; `none` is a failure of it. One
-- reading of the clock, `now`, serves a whole evaluation.
pub mod Pending
pub mod Steps
pub mod Decisions
use Prim.Native.String.{String}
use text.Mathlib.Text.{◌==◌ as str_eq}
use philotes.Common.{
  ℕ, Bool, true, false, not, ◌&&◌, ◌||◌, Option, none, some, List, [], ◌∷◌, keep, if◌then◌else◌,
}
use philotes.Common.Int.{ℤ, pos, sub_ℕ, ltb_ℤ, ◌+ℤ◌, ◌-ℤ◌}
use philotes.Common.Maps.{lookup, remove}
use philotes.Common.Floats.{Floats}
use philotes.Scaling.{
  Action, scale_up, scale_down, Rule, Policy, rule_duration, rule_evaluate, cooldown_duration,
  clamp_replicas, State, is_in_cooldown, Reason, in_cooldown, rule_triggered, no_rules_triggered,
  Decision,
}

abbrev is_zero : ℤ → Bool
is_zero a = not (ltb_ℤ a (pos 0)) && not (ltb_ℤ (pos 0) a)

-- Whether the condition has lasted for the required time, and for how long.
unfoldable pub check_duration_condition : ℕ → State → String → ℤ → Bool × ℤ
check_duration_condition now s key required =
    if is_zero required then (true, pos 0) else elim (lookup key s.pending) [
      | none ↦ (false, pos 0)
      | some t ↦ let elapsed = sub_ℕ now t in (not (ltb_ℤ elapsed required), elapsed)
    ]

unfoldable pub update_pending_condition : ℕ → State → String → State
update_pending_condition now s key = elim (lookup key s.pending) [
  | some t ↦ s
  | none ↦ record s { pending = (key, now) ∷ s.pending }
]

unfoldable pub clear_pending_condition : State → String → State
unfolding remove
clear_pending_condition s key = record s { pending = remove key s.pending }

-- The decision that nothing is done.
unfoldable pub no_decision : State → Reason → ℤ → Decision
no_decision s reason remaining = record {
  action = none;
  current_replicas = s.current_replicas;
  desired_replicas = s.current_replicas;
  reason = reason;
  triggered_by = none;
  should_execute = false;
  cooldown_remaining = remaining;
}

unfoldable pub scale_decision : State → Action → ℤ → String → ℤ → Decision
scale_decision s action replicas id elapsed = record {
  action = some action;
  current_replicas = s.current_replicas;
  desired_replicas = replicas;
  reason = rule_triggered id elapsed;
  triggered_by = some id;
  should_execute = true;
  cooldown_remaining = pos 0;
}

-- When a rule of either kind may scale, from the current replicas to the new ones.
abbrev pub up_fires : ℤ → ℤ → Bool
up_fires current replicas = ltb_ℤ current replicas

abbrev pub down_fires : Bool → ℤ → ℤ → Bool
down_fires scale_to_zero current replicas =
    ltb_ℤ replicas current && (ltb_ℤ (pos 0) replicas || scale_to_zero)

module _ {f : Floats} (query : Rule f → Option (f.Float)) (now : ℕ) (policy : Policy f)
    (action : Action) (fires : ℤ → ℤ → Bool) where
  -- One rule of a loop, with the value that was measured for it.
  unfoldable pub try_measured : Rule f → State → f.Float → State × Option Decision
  unfolding check_duration_condition update_pending_condition clear_pending_condition
  try_measured rule s value =
      if rule_evaluate rule value
      then (let (met, elapsed) = check_duration_condition now s rule.id (rule_duration rule) in
          let replicas = clamp_replicas policy (s.current_replicas +ℤ rule.scale_by) in
          if met
          then (if fires s.current_replicas replicas
              then (s, some (scale_decision s action replicas rule.id elapsed))
              else (s, none))
          else (update_pending_condition now s rule.id, none))
      else (clear_pending_condition s rule.id, none)

  unfoldable pub try_rule : Rule f → State → State × Option Decision
  unfolding try_measured
  try_rule rule s = elim (query rule) [ none ↦ (s, none) | some value ↦ try_measured rule s value ]

  -- The loop over the rules, up to the first that decides.
  unfoldable pub try_rules : List (Rule f) → State → State × Option Decision
  unfolding try_rule
  try_rules [] s = (s, none)
  try_rules (rule ∷ rules) s =
      let (s', d) = try_rule rule s in elim d [ some x ↦ (s', some x) | none ↦ try_rules rules s' ]

unfoldable pub evaluate_policy :
    {f : Floats} → (Rule f → Option (f.Float)) → ℕ → Policy f → State → State × Decision
unfolding try_rules
evaluate_policy query now policy s =
    let cooldown = cooldown_duration policy in
    if is_in_cooldown now s cooldown
    then (let since : ℤ = elim s.last_scale_time [ none ↦ pos 0 | some t ↦ sub_ℕ now t ] in
        let remaining = cooldown -ℤ since in (s, no_decision s (in_cooldown remaining) remaining))
    else (let (s', up) = try_rules query now policy scale_up up_fires policy.scale_up_rules s in
        elim up [
          | some d ↦ (s', d)
          | none ↦
              let (s'', down) =
                try_rules query now policy scale_down (down_fires policy.scale_to_zero)
                  policy.scale_down_rules s' in
              elim down [
                | some d ↦ (s'', d)
                | none ↦ (s'', no_decision s no_rules_triggered (pos 0))
              ]
        ])
