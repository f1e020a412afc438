-- ===== src/Scaling/Idle.antt =====
-- internal/scaling/idle/detector.go and types.go: when policies were active last, and which are scaled to
-- zero. The repository is an interface with a state of its own. The states are pointers in the program;
-- `IdleSince` then points at the time of the last activity, which changes only where `IdleSince` is reset.
pub mod ScaledToZero
use Prim.Native.String.{String}
use philotes.Common.{
  ℕ, suc, Bool, true, false, not, ◌&&◌, ◌||◌, Option, none, some, List, [], ◌∷◌, if◌then◌else◌,
}
use philotes.Common.Errors.{GoError, Fallible, ok, err}
use philotes.Common.Int.{ℤ, pos, sub_ℕ, ltb_ℤ}
use philotes.Common.Maps.{lookup, put, remove}

pub data WakeReason : Type 0 where
  manual scheduled webhook api_request database_activity : WakeReason
  no_wake_reason : String → WakeReason

abbrev pub reason_is_valid : WakeReason → Bool
reason_is_valid (no_wake_reason s) = false
reason_is_valid _ = true

pub record IdleState : Type 0 where
  pub policy_id : String
  pub last_activity_at : ℕ
  pub idle_since : Option ℕ
  pub scaled_to_zero_at : Option ℕ
  pub last_wake_at : Option ℕ
  pub wake_reason : Option WakeReason
  pub is_scaled_to_zero : Bool
  pub created_at : ℕ
  pub updated_at : ℕ

abbrev pub idle_duration : ℕ → IdleState → ℤ
idle_duration now s = sub_ℕ now s.last_activity_at

unfoldable pub scaled_to_zero_duration : ℕ → IdleState → ℤ
scaled_to_zero_duration now s = elim (s.scaled_to_zero_at) [ none ↦ pos 0 | some t ↦ sub_ℕ now t ]

pub record IdleRepository : Type 1 where
  pub Store : Type 0
  pub create_idle_state : IdleState → Store → Store × Option GoError
  pub get_idle_state : String → Store → Fallible (Option IdleState)
  pub update_idle_state : IdleState → Store → Store × Option GoError
  pub delete_idle_state : String → Store → Store × Option GoError
  pub list_idle_states : Store → Fallible (List IdleState)

pub record Detector (repo : IdleRepository) : Type 0 where
  pub states : List (String × IdleState)
  pub store : repo.Store

-- A state that is new in memory.
abbrev pub new_idle_state : ℕ → String → IdleState
new_idle_state now id = record {
  policy_id = id;
  last_activity_at = now;
  idle_since = none;
  scaled_to_zero_at = none;
  last_wake_at = none;
  wake_reason = none;
  is_scaled_to_zero = false;
  created_at = now;
  updated_at = 0;
}

-- The loop over what the database lists.
unfoldable pub put_states : List IdleState → List (String × IdleState) → List (String × IdleState)
put_states [] m = m
put_states (s ∷ ss) m = put_states ss (put s.policy_id s m)

-- A policy is idle since its last activity.
unfoldable pub become_idle : ℕ → IdleState → IdleState
become_idle now s = elim (s.idle_since) [
  | some t ↦ s
  | none ↦
      if ltb_ℤ (pos 0) (idle_duration now s)
      then record s { idle_since = some s.last_activity_at }
      else s
]

abbrev pub active_again : ℕ → IdleState → IdleState
active_again now s = record s { last_activity_at = now; idle_since = none; updated_at = now }

abbrev pub gone_to_zero : ℕ → IdleState → IdleState
gone_to_zero now s = record s {
  scaled_to_zero_at = some now;
  is_scaled_to_zero = true;
  updated_at = now;
}

abbrev pub woken : ℕ → WakeReason → IdleState → IdleState
woken now reason s = record s {
  last_wake_at = some now;
  wake_reason = some reason;
  is_scaled_to_zero = false;
  scaled_to_zero_at = none;
  idle_since = none;
  last_activity_at = now;
  updated_at = now;
}

-- The loop of `updateIdleStates`; errors are logged.
unfoldable pub update_each :
    (repo : IdleRepository)
    → ℕ
    → List (String × IdleState)
    → repo.Store
    → List (String × IdleState) × repo.Store
unfolding become_idle
update_each repo now [] store = ([], store)
update_each repo now ((id, s) ∷ rest) store =
    let s' = become_idle now s in
    let (others, store') = update_each repo now rest (repo.update_idle_state s' store).0 in
    ((id, s') ∷ others, store')

-- The loop of `ListScaledToZeroPolicies`.
unfoldable pub zero_ids : List (String × IdleState) → List String
zero_ids [] = []
zero_ids ((id, s) ∷ rest) =
    let others = zero_ids rest in if s.is_scaled_to_zero then id ∷ others else others

module _ {repo : IdleRepository} where
  -- The state in memory, or a new one.
  abbrev pub state_or_new : ℕ → String → Detector repo → IdleState
  state_or_new now id d = elim (lookup id d.states) [ some s ↦ s | none ↦ new_idle_state now id ]

  -- Puts a state in memory and updates it in the repository; the error is returned.
  unfoldable pub put_state : String → IdleState → Detector repo → Detector repo × Option GoError
  put_state id s d =
      let (store, x) = repo.update_idle_state s d.store in
      (record { states = put id s d.states; store = store }, x)

  unfoldable pub load_states : Detector repo → Detector repo × Option GoError
  unfolding put_states
  load_states d = elim (repo.list_idle_states d.store) [
    | err x ↦ (d, some x)
    | ok states ↦ (record d { states = put_states states d.states }, none)
  ]

  unfoldable pub update_idle_states : ℕ → Detector repo → Detector repo
  unfolding update_each
  update_idle_states now d =
      let (states, store) = update_each repo now d.states d.store in
      record { states = states; store = store }

  unfoldable pub record_activity : ℕ → String → Detector repo → Detector repo × Option GoError
  unfolding put_state
  record_activity now id d = elim (lookup id d.states) [
    | some s ↦ put_state id (active_again now s) d
    | none ↦
        let s = record (new_idle_state now id) { updated_at = now } in
        let (store, x) = repo.create_idle_state s d.store in
        (record { states = put id s d.states; store = store }, x)
  ]

  unfoldable pub find_idle_state : String → Detector repo → Fallible (Option IdleState)
  find_idle_state id d = elim (lookup id d.states) [
    | some s ↦ ok (some s)
    | none ↦ repo.get_idle_state id d.store
  ]

  -- Whether a policy is idle, and for how long.
  unfoldable pub is_idle : ℕ → String → ℤ → Detector repo → Fallible (Bool × ℤ)
  unfolding find_idle_state
  is_idle now id threshold d = elim (find_idle_state id d) [
    | err x ↦ err x
    | ok none ↦ ok (false, pos 0)
    | ok (some s) ↦ ok (not (ltb_ℤ (idle_duration now s) threshold), idle_duration now s)
  ]

  unfoldable pub mark_scaled_to_zero : ℕ → String → Detector repo → Detector repo × Option GoError
  unfolding put_state
  mark_scaled_to_zero now id d = put_state id (gone_to_zero now (state_or_new now id d)) d

  unfoldable pub mark_woken :
      ℕ → String → WakeReason → Detector repo → Detector repo × Option GoError
  unfolding put_state
  mark_woken now id reason d = put_state id (woken now reason (state_or_new now id d)) d

  abbrev pub list_scaled_to_zero_policies : Detector repo → List String
  list_scaled_to_zero_policies d = zero_ids d.states

  -- The error of the repository is logged.
  unfoldable pub remove_policy : String → Detector repo → Detector repo
  remove_policy id d = record {
    states = remove id d.states;
    store = (repo.delete_idle_state id d.store).0;
  }
