-- ===== src/Scaling/Manager.antt =====
-- internal/scaling/manager.go: the manager that evaluates the policies and scales their targets.
-- The repository and the executor are interfaces over states of their own (repository.go, executor.go).
pub mod Cooldown
pub mod DryRun
use Prim.Native.String.{String}
use philotes.Common.{
  ℕ, Bool, true, false, not, ◌&&◌, Option, none, some, List, [], ◌∷◌, ◌++◌, if◌then◌else◌,
}
use philotes.Common.Errors.{GoError, wrapped, plain, Fallible, ok, err}
use philotes.Common.Int.{ℤ}
use philotes.Common.Floats.{Floats}
use philotes.Scaling.{
  TargetType, RuleType, scale_up_rule, Action, Rule, Policy, State, Reason, Decision,
}
use philotes.Scaling.Evaluator.{evaluate_policy}

pub record History : Type 0 where
  pub policy_id : String
  pub policy_name : String
  pub action : Option Action
  pub target_type : TargetType
  pub target_id : Option String
  pub previous_replicas : ℤ
  pub new_replicas : ℤ
  pub reason : Reason
  pub triggered_by : Option String
  pub dry_run : Bool
  pub executed_at : ℕ

-- The flag of `scale` says that it is a dry run.
pub record Executor : Type 1 where
  pub Target : Type 0
  pub get_current_replicas : TargetType → Option String → Target → Fallible ℤ
  pub scale : TargetType → Option String → ℤ → Bool → Target → Target × Option GoError

pub record Repository (f : Floats) : Type 1 where
  pub Store : Type 0
  pub list_enabled : Store → Fallible (List (Policy f))
  pub get_policy_by_name : String → Store → Fallible (Policy f)
  pub get_rules_for_policy : String → Store → Fallible (List (Rule f))
  pub get_state : String → Store → Fallible State
  pub create_state : State → Store → Store × Option GoError
  pub update_state : State → Store → Store × Option GoError
  pub create_history : History → Store → Store × Option GoError

-- The numbers by which the wrapped errors are known.
abbrev pub list_failed : ℕ
list_failed = 20

abbrev pub rules_failed : ℕ
rules_failed = 21

abbrev pub scale_failed : ℕ
scale_failed = 22

abbrev pub execute_failed : ℕ
execute_failed = 23

abbrev pub policy_missing : ℕ
policy_missing = 24

abbrev pub already_running : ℕ
already_running = 25

-- A rule goes behind those of its kind; any other type than `scale_up` is one for scaling down.
unfoldable pub add_rule : {f : Floats} → Policy f → Rule f → Policy f
add_rule p r = elim r.rule_type [
  | scale_up_rule ↦ record p { scale_up_rules = p.scale_up_rules ++ r ∷ [] }
  | _ ↦ record p { scale_down_rules = p.scale_down_rules ++ r ∷ [] }
]

unfoldable pub add_rules : {f : Floats} → Policy f → List (Rule f) → Policy f
unfolding add_rule
add_rules p [] = p
add_rules p (r ∷ rs) = add_rules (add_rule p r) rs

unfoldable pub initial_state : {f : Floats} → Policy f → State
initial_state p = record {
  policy_id = p.id;
  current_replicas = p.min_replicas;
  last_scale_time = none;
  last_scale_action = none;
  pending = [];
}

unfoldable pub history_of : {f : Floats} → Policy f → Decision → Bool → ℕ → History
history_of p d dry_run now = record {
  policy_id = p.id;
  policy_name = p.name;
  action = d.action;
  target_type = p.target_type;
  target_id = p.target_id;
  previous_replicas = d.current_replicas;
  new_replicas = d.desired_replicas;
  reason = d.reason;
  triggered_by = d.triggered_by;
  dry_run = dry_run;
  executed_at = now;
}

-- The state behind a scaling that was made.
unfoldable pub scaled_state : ℕ → Decision → State → State
scaled_state now d s = record s {
  current_replicas = d.desired_replicas;
  last_scale_time = some now;
  last_scale_action = d.action;
  pending = [];
}

-- The state of the policy: an error of the repository gives the initial one, which is stored.
unfoldable pub load_state :
    {f : Floats} (repo : Repository f) → Policy f → repo.Store → repo.Store × State
unfolding initial_state
load_state repo policy store = elim (repo.get_state policy.id store) [
  | ok s ↦ (store, s)
  | err x ↦ let s = initial_state policy in ((repo.create_state s store).0, s)
]

-- The replicas that the executor counts, if it can.
unfoldable pub sync_replicas :
    {f : Floats} (executor : Executor) → Policy f → executor.Target → State → State
sync_replicas executor policy target s =
    elim (executor.get_current_replicas policy.target_type policy.target_id target) [
      | ok n ↦ record s { current_replicas = n }
      | err x ↦ s
    ]

module _ {f : Floats} (repo : Repository f) (executor : Executor) where
  pub record System : Type 0 where
    pub store : repo.Store
    pub target : executor.Target

module _ {f : Floats} {repo : Repository f} {executor : Executor} where
  -- What `executeDecision` does behind the call of the executor. Failures of the repository are logged.
  note_scaled :
      ℕ
      → Policy f
      → Decision
      → State
      → repo.Store
      → executor.Target × Option GoError
      → System repo executor × State × Option GoError
  unfolding history_of scaled_state
  note_scaled now policy d s store (target, some x) =
      (record { store = store; target = target }, s, some (wrapped scale_failed x))
  note_scaled now policy d s store (target, none) =
      let s' = scaled_state now d s in
      let noted = (repo.create_history (history_of policy d false now) store).0 in
      (record { store = (repo.update_state s' noted).0; target = target }, s', none)

  unfoldable pub execute_decision :
      ℕ
      → Policy f
      → Decision
      → State
      → System repo executor
      → System repo executor × State × Option GoError
  unfolding note_scaled
  execute_decision now policy d s sys =
      note_scaled now policy d s sys.store
        (executor.scale policy.target_type policy.target_id d.desired_replicas false sys.target)

  -- The end of a round. The store is not updated if the execution failed.
  unfoldable pub act_on :
      ℕ → Policy f → State × Decision → System repo executor → System repo executor × Option GoError
  unfolding execute_decision
  act_on now policy (s, d) sys =
      if d.should_execute
      then (let (sys', s', r) = execute_decision now policy d s sys in
          elim r [
            | some x ↦ (sys', some (wrapped execute_failed x))
            | none ↦ (record sys' { store = (repo.update_state s' sys'.store).0 }, none)
          ])
      else (record sys { store = (repo.update_state s sys.store).0 }, none)

  -- `evaluatePolicy`.
  unfoldable pub evaluate_round :
      (Rule f → Option (f.Float))
      → ℕ
      → Policy f
      → System repo executor
      → System repo executor × Option GoError
  unfolding act_on load_state sync_replicas
  evaluate_round query now policy sys = elim (repo.get_rules_for_policy policy.id sys.store) [
    | err x ↦ (sys, some (wrapped rules_failed x))
    | ok rules ↦
        let p = add_rules policy rules in
        let (store, s) = load_state repo p sys.store in
        act_on now p (evaluate_policy query now p (sync_replicas executor p sys.target s))
          (record sys { store = store })
  ]

  -- The loop over the policies. Their errors are logged.
  unfoldable pub evaluate_all :
      (Rule f → Option (f.Float))
      → ℕ
      → List (Policy f)
      → System repo executor
      → System repo executor
  evaluate_all query now [] sys = sys
  evaluate_all query now (p ∷ ps) sys = evaluate_all query now ps (evaluate_round query now p sys).0

  -- `evaluatePolicies`.
  unfoldable pub evaluate_policies :
      (Rule f → Option (f.Float)) → ℕ → System repo executor → System repo executor × Option GoError
  unfolding evaluate_all
  evaluate_policies query now sys = elim (repo.list_enabled sys.store) [
    | err x ↦ (sys, some (wrapped list_failed x))
    | ok ps ↦ (evaluate_all query now ps sys, none)
  ]
