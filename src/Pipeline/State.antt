-- ===== src/Pipeline/State.antt =====
-- internal/cdc/pipeline/state.go: the states of a pipeline and the machine that moves between them.
-- Each method holds the machine's lock, so it is one step. The listeners run after the lock is
-- released: `transition` returns the calls that it makes, in order.
pub mod Graph
use philotes.Common.{ℕ, Bool, true, false, ◌||◌, List, [], ◌∷◌, ◌++◌, map, ◌==◌, if◌then◌else◌}

-- The constants of `State`, in the order of their `iota`.
pub data State : Type 0 where
  starting running paused stopping stopped failed : State

-- The integer of a state, which the metric and the comparisons use.
abbrev pub to_int : State → ℕ
to_int starting = 0
to_int running = 1
to_int paused = 2
to_int stopping = 3
to_int stopped = 4
to_int failed = 5

abbrev pub state_eq : State → State → Bool
state_eq s t = to_int s == to_int t

-- The map `validTransitions`. Every state is one of its keys.
unfoldable pub valid_transitions : State → List State
valid_transitions starting = running ∷ failed ∷ stopping ∷ []
valid_transitions running = paused ∷ stopping ∷ failed ∷ []
valid_transitions paused = running ∷ stopping ∷ failed ∷ []
valid_transitions stopping = stopped ∷ failed ∷ []
valid_transitions stopped = starting ∷ []
valid_transitions failed = starting ∷ stopped ∷ []

-- The loop over the allowed targets.
unfoldable pub any_state : State → List State → Bool
any_state target [] = false
any_state target (s ∷ rest) = state_eq s target || any_state target rest

-- A listener is known by its place in the order of registration.
pub record StateMachine : Type 0 where
  pub state : State
  pub listeners : List ℕ

-- A call of a listener.
pub record Notice : Type 0 where
  pub listener : ℕ
  pub from : State
  pub to : State

pub data TransitionResult : Type 0 where
  done : List Notice → TransitionResult
  invalid : State → State → TransitionResult

unfoldable pub new_state_machine : StateMachine
new_state_machine = record { state = starting; listeners = [] }

unfoldable pub can_transition : StateMachine → State → Bool
unfolding valid_transitions any_state
can_transition sm target = any_state target (valid_transitions sm.state)

unfoldable pub transition : StateMachine → State → StateMachine × TransitionResult
unfolding can_transition
transition sm target =
    if can_transition sm target
    then (
      record sm { state = target },
      done (map (λ l. record { listener = l; from = sm.state; to = target }) sm.listeners),
    )
    else (sm, invalid sm.state target)

unfoldable pub add_listener : StateMachine → ℕ → StateMachine
add_listener sm listener = record sm { listeners = sm.listeners ++ listener ∷ [] }

abbrev pub is_running : StateMachine → Bool
is_running sm = state_eq sm.state running

abbrev pub is_paused : StateMachine → Bool
is_paused sm = state_eq sm.state paused

abbrev pub can_process : StateMachine → Bool
can_process sm = state_eq sm.state running

abbrev pub is_terminal : StateMachine → Bool
is_terminal sm = state_eq sm.state stopped || state_eq sm.state failed
