-- ===== src/Scaling/Manager/DryRun.antt =====
-- internal/scaling/manager.go: the evaluation of one policy on request, also as a dry run.
use Prim.Native.String.{String}
use philotes.Common.{
  ℕ, ◌≡◌, refl, ◌⊎◌, inl, inr, Bool, true, false, not, ◌&&◌, Option, none, some, if◌then◌else◌,
  arith,
}
use philotes.Common.Errors.{GoError, wrapped, Fallible, ok, err, Fallible-cases}
use philotes.Common.Floats.{Floats}
use philotes.Scaling.{Rule, Policy, State, Decision}
use philotes.Scaling.Evaluator.{evaluate_policy}
use philotes.Scaling.Manager.{
  Executor, Repository, System, add_rules, initial_state, sync_replicas, execute_decision,
  history_of, execute_failed, rules_failed, policy_missing,
}

module _ {f : Floats} {repo : Repository f} {executor : Executor} where
  -- The end of `EvaluatePolicyNow`: the state is not stored if nothing is executed.
  act_now :
      ℕ
      → Bool
      → Policy f
      → State × Decision
      → System repo executor
      → System repo executor × Fallible Decision
  unfolding execute_decision
  act_now now dry_run policy (s, d) sys =
      if d.should_execute && not dry_run
      then (let (sys', s', r) = execute_decision now policy d s sys in
          elim r [ some x ↦ (sys', err (wrapped execute_failed x)) | none ↦ (sys', ok d) ])
      else if d.should_execute && dry_run
      then (
        record sys { store = (repo.create_history (history_of policy d true now) sys.store).0 },
        ok d,
      )
      else (sys, ok d)

  unfoldable pub evaluate_policy_now :
      (Rule f → Option (f.Float))
      → ℕ
      → String
      → Bool
      → System repo executor
      → System repo executor × Fallible Decision
  unfolding act_now initial_state sync_replicas
  evaluate_policy_now query now name dry_run sys = elim (repo.get_policy_by_name name sys.store) [
    | err x ↦ (sys, err (wrapped policy_missing x))
    | ok policy ↦ elim (repo.get_rules_for_policy policy.id sys.store) [
      | err x ↦ (sys, err (wrapped rules_failed x))
      | ok rules ↦
          let p = add_rules policy rules in
          let s : State = elim (repo.get_state p.id sys.store) [
            | ok s ↦ s
            | err x ↦ initial_state p
          ] in
          act_now now dry_run p
            (evaluate_policy query now p (sync_replicas executor p sys.target s)) sys
    ]
  ]

  act_now-dry :
      (now : ℕ) (p : Policy f) (s : State) (d : Decision) (sys : System repo executor)
      → let (dry, told) = act_now now true p (s, d) sys in
        let (wet, made) = act_now now false p (s, d) sys in
        (dry.target ≡ sys.target) × ((made ≡ told) ⊎ ((x : GoError) × (made ≡ err x)))
  unfolding act_now
  act_now-dry now p s d sys = ground arith

  -- A dry run does not touch the target; and what it returns is what the run that is not dry returns
  -- from the same system, unless that fails.
  pub dry_run-foretells :
      (query : Rule f → Option (f.Float)) (now : ℕ) (name : String) (sys : System repo executor)
      → let (dry, told) = evaluate_policy_now query now name true sys in
        let (wet, made) = evaluate_policy_now query now name false sys in
        (dry.target ≡ sys.target) × ((made ≡ told) ⊎ ((x : GoError) × (made ≡ err x)))
  unfolding evaluate_policy_now
  dry_run-foretells query now name sys =
      elim (Fallible-cases (repo.get_policy_by_name name sys.store)) [
        | inr (x, e) ↦ rw (e, evaluate_policy_now) (refl, inl refl)
        | inl (p, e) ↦ elim (Fallible-cases (repo.get_rules_for_policy p.id sys.store)) [
          | inr (x, e') ↦ rw (e, evaluate_policy_now) (rw e' (refl, inl refl))
          | inl (rules, e') ↦
              let q = add_rules p rules in
              let s : State = elim (repo.get_state q.id sys.store) [
                | ok s ↦ s
                | err x ↦ initial_state q
              ] in
              let r = evaluate_policy query now q (sync_replicas executor q sys.target s) in
              rw (e, evaluate_policy_now) (rw e' (act_now-dry now q r.0 r.1 sys))
        ]
      ]
