-- ===== src/Scaling/Wake.antt =====
-- internal/scaling/wake/trigger.go: waking policies that are scaled to zero. The policies, their states
-- and the executor are services on one world; one reading of the clock serves a call. Operations are
-- pointers in the program: what becomes of one is what becomes of its entry.
pub mod Wakes
use Prim.Native.String.{String}
use philotes.Common.{
  ℕ, Bool, true, false, ◌&&◌, Option, none, some, List, [], ◌∷◌, if◌then◌else◌, is_some,
}
use philotes.Common.Errors.{GoError, plain, wrapped, Fallible, ok, err}
use philotes.Common.Int.{ℤ, pos, ltb_ℤ}
use philotes.Common.Floats.{Floats}
use philotes.Common.Maps.{lookup, put, remove}
use philotes.Scaling.{TargetType, Policy, State, Action, scale_up}
use philotes.Scaling.Idle.{
  WakeReason, IdleRepository, Detector, mark_woken, list_scaled_to_zero_policies,
}

pub data Status : Type 0 where
  in_progress completed failed : Status

pub record Operation : Type 0 where
  pub policy_id : String
  pub reason : WakeReason
  pub requested_at : ℕ
  pub completed_at : Option ℕ
  pub target_replicas : ℤ
  pub status : Status
  pub error : Option GoError

pub record ColdStartConfig : Type 0 where
  pub timeout_seconds : ℕ
  pub poll_interval_seconds : ℕ
  pub default_replicas : ℤ

abbrev pub default_cold_start_config : ColdStartConfig
default_cold_start_config = record {
  timeout_seconds = 120;
  poll_interval_seconds = 5;
  default_replicas = pos 1;
}

-- `already` tells the message "Policy is already running".
pub record Result : Type 0 where
  pub policy_id : String
  pub previous_replicas : ℤ
  pub target_replicas : ℤ
  pub reason : WakeReason
  pub status : Status
  pub estimated_ready_seconds : ℕ
  pub already : Bool
  pub error : Option GoError

pub record WakeHistory : Type 0 where
  pub policy_id : String
  pub policy_name : String
  pub action : Action
  pub target_type : TargetType
  pub target_id : Option String
  pub previous_replicas : ℤ
  pub new_replicas : ℤ
  pub reason : WakeReason
  pub executed_at : ℕ

-- `UpdateState` of the interface of policies is never called.
pub record WakeServices (f : Floats) : Type 1 where
  pub World : Type 0
  pub get_policy : String → World → Fallible (Option (Policy f))
  pub get_policy_state : String → World → Fallible (Option State)
  pub record_history : WakeHistory → World → World × Option GoError
  pub scale : Policy f → ℤ → World → World × Option GoError

pub record Trigger (f : Floats) (sv : WakeServices f) (repo : IdleRepository) : Type 0 where
  pub world : sv.World
  pub detector : Detector repo
  pub pending_wakes : List (String × Operation)

-- The numbers by which the errors are known.
abbrev pub policy_failed : ℕ
policy_failed = 60

abbrev pub policy_not_found : ℕ
policy_not_found = 61

abbrev pub state_failed : ℕ
state_failed = 62

abbrev pub is_running : Option State → Bool
is_running none = false
is_running (some s) = ltb_ℤ (pos 0) s.current_replicas

abbrev pub replicas_of : Option State → ℤ
replicas_of none = pos 0
replicas_of (some s) = s.current_replicas

unfoldable pub wake_target : {f : Floats} → ColdStartConfig → Policy f → ℤ
wake_target cfg p = if ltb_ℤ (pos 0) p.min_replicas then p.min_replicas else cfg.default_replicas

abbrev pub new_operation : ℕ → String → WakeReason → ℤ → Operation
new_operation now id reason target = record {
  policy_id = id;
  reason = reason;
  requested_at = now;
  completed_at = none;
  target_replicas = target;
  status = in_progress;
  error = none;
}

abbrev pub result_of : String → ℤ → ℤ → WakeReason → Status → ℕ → Bool → Option GoError → Result
result_of id previous target reason status seconds already error = record {
  policy_id = id;
  previous_replicas = previous;
  target_replicas = target;
  reason = reason;
  status = status;
  estimated_ready_seconds = seconds;
  already = already;
  error = error;
}

abbrev pub wake_history : {f : Floats} → ℕ → Policy f → String → ℤ → WakeReason → WakeHistory
wake_history now p id target reason = record {
  policy_id = id;
  policy_name = p.name;
  action = scale_up;
  target_type = p.target_type;
  target_id = p.target_id;
  previous_replicas = pos 0;
  new_replicas = target;
  reason = reason;
  executed_at = now;
}

-- The result that `Wake` returns, if any, and its error.
abbrev pub Answer : Type 0
Answer = Option Result × Option GoError

-- What an answer adds to the results. Without an error there is a result.
abbrev result_for : String → WakeReason → Answer → Result
result_for id reason (r, some x) = result_of id (pos 0) (pos 0) reason failed 0 false (some x)
result_for id reason (none, none) = result_of id (pos 0) (pos 0) reason failed 0 false none
result_for id reason (some r, none) = r

module _ {f : Floats} {sv : WakeServices f} {repo : IdleRepository} where
  abbrev pub failed_trigger :
      ℕ → String → WakeReason → ℤ → sv.World → GoError → Trigger f sv repo → Trigger f sv repo
  failed_trigger now id reason target world x t = record {
    world = world;
    detector = t.detector;
    pending_wakes =
        put id
          (record (new_operation now id reason target) {
            status = failed;
            error = some x;
            completed_at = some now;
          })
          t.pending_wakes;
  }

  -- Behind a scaling that was made; the errors of the detector and of the history are logged.
  abbrev pub woken_trigger :
      ℕ → Policy f → String → WakeReason → ℤ → sv.World → Trigger f sv repo → Trigger f sv repo
  woken_trigger now p id reason target world t = record {
    world = (sv.record_history (wake_history now p id target reason) world).0;
    detector = (mark_woken now id reason t.detector).0;
    pending_wakes = remove id (put id (new_operation now id reason target) t.pending_wakes);
  }

  unfoldable pub scaled :
      ColdStartConfig
      → ℕ
      → Policy f
      → String
      → WakeReason
      → ℤ
      → Trigger f sv repo
      → sv.World × Option GoError
      → Trigger f sv repo × Answer
  scaled cfg now p id reason target t (world, some x) = (
    failed_trigger now id reason target world x t,
    (some (result_of id (pos 0) target reason failed 0 false (some x)), some x),
  )
  scaled cfg now p id reason target t (world, none) = (
    woken_trigger now p id reason target world t,
    (some (result_of id (pos 0) target reason completed cfg.timeout_seconds false none), none),
  )

  -- With the policy and its state.
  unfoldable pub wake_policy :
      ColdStartConfig
      → ℕ
      → String
      → WakeReason
      → Policy f
      → Option State
      → Trigger f sv repo
      → Trigger f sv repo × Answer
  unfolding wake_target scaled
  wake_policy cfg now id reason p state t =
      if is_running state
      then (
        t,
        (
          some (result_of id (replicas_of state) (replicas_of state) reason completed 0 true none),
          none,
        ),
      )
      else scaled cfg now p id reason (wake_target cfg p) t (sv.scale p (wake_target cfg p) t.world)

  unfoldable pub wake :
      ColdStartConfig → ℕ → String → WakeReason → Trigger f sv repo → Trigger f sv repo × Answer
  unfolding wake_policy
  wake cfg now id reason t = elim (sv.get_policy id t.world) [
    | err x ↦ (t, (none, some (wrapped policy_failed x)))
    | ok none ↦ (t, (none, some (plain policy_not_found)))
    | ok (some p) ↦ elim (sv.get_policy_state id t.world) [
      | err x ↦ (t, (none, some (wrapped state_failed x)))
      | ok state ↦ wake_policy cfg now id reason p state t
    ]
  ]

  unfoldable pub wake_multiple :
      ColdStartConfig
      → ℕ
      → List String
      → WakeReason
      → Trigger f sv repo
      → Trigger f sv repo × List Result
  unfolding wake
  wake_multiple cfg now [] reason t = (t, [])
  wake_multiple cfg now (id ∷ ids) reason t =
      let (t1, answer) = wake cfg now id reason t in
      let (t2, results) = wake_multiple cfg now ids reason t1 in
      (t2, result_for id reason answer ∷ results)

  -- `ListScaledToZeroPolicies` does not fail.
  unfoldable pub wake_all :
      ColdStartConfig → ℕ → WakeReason → Trigger f sv repo → Trigger f sv repo × List Result
  unfolding wake_multiple
  wake_all cfg now reason t =
      wake_multiple cfg now (list_scaled_to_zero_policies t.detector) reason t

  abbrev pub get_pending_wake : String → Trigger f sv repo → Option Operation
  get_pending_wake id t = lookup id t.pending_wakes

  abbrev pub is_waking : String → Trigger f sv repo → Bool
  is_waking id t = is_some (lookup id t.pending_wakes)
