-- ===== src/Pipeline/State/Graph.antt =====
-- The diagram of the pipeline's states, and what the machine can reach.
use philotes.Common.{
  ◌≡◌, refl, ◌≢◌, ◌⊎◌, inl, inr, Bool, true, false, List, map, arith, Bool-cases, All, [], ◌∷◌,
}
use philotes.Pipeline.State.{
  State, starting, running, paused, stopping, stopped, failed, StateMachine, done, invalid,
  any_state, valid_transitions, transition,
}

infix 40 ◌⟶◌ ◌⟶*◌
-- The diagram, written by what each edge is for.
pub data ◌⟶◌ : State → State → Type 0 where
  launch : starting ⟶ running
  pause : running ⟶ paused
  resume : paused ⟶ running
  shut : {s : State} → (s ≡ starting) ⊎ (s ≡ running) ⊎ (s ≡ paused) → s ⟶ stopping
  finish : stopping ⟶ stopped
  crash : {s : State} → s ≢ stopped → s ≢ failed → s ⟶ failed
  restart : {s : State} → (s ≡ stopped) ⊎ (s ≡ failed) → s ⟶ starting
  settle : failed ⟶ stopped

pub data ◌⟶*◌ : State → State → Type 0 where
  here : {s : State} → s ⟶* s
  then : {s t u : State} → s ⟶ t → t ⟶* u → s ⟶* u

ruleset edges = (launch, pause, resume, shut, finish, crash, restart, settle)

allowed_of_edge : {s t : State} → s ⟶ t → any_state t (valid_transitions s) ≡ true
unfolding valid_transitions any_state
allowed_of_edge launch = refl
allowed_of_edge pause = refl
allowed_of_edge resume = refl
allowed_of_edge (shut h) = ground arith
allowed_of_edge finish = refl
allowed_of_edge (crash h k) = ground arith
allowed_of_edge (restart h) = ground arith
allowed_of_edge settle = refl

edge_of_allowed : (s t : State) → any_state t (valid_transitions s) ≡ true → s ⟶ t
unfolding valid_transitions any_state
edge_of_allowed starting t h = grind (arith, edges)
edge_of_allowed s t h = grind (arith, edges)

-- `Transition` succeeds exactly along an edge of the diagram; then the machine is in the target
-- state with its listeners unchanged, and each listener is called once, in order, with both ends of
-- the edge. Otherwise the machine is unchanged and the error names both states.
pub transition-follows_diagram :
    (sm : StateMachine) (target : State)
    → ((sm.state ⟶ target)
        × (transition sm target ≡ (
          record { state = target; listeners = sm.listeners },
          done (map (λ l. record { listener = l; from = sm.state; to = target }) sm.listeners),
        )))
      ⊎ ((¬ (sm.state ⟶ target)) × (transition sm target ≡ (sm, invalid sm.state target)))
unfolding transition
transition-follows_diagram sm target =
    elim (Bool-cases (any_state target (valid_transitions sm.state))) [
      | inl yes_ ↦ inl (edge_of_allowed _ _ yes_, rw yes_)
      | inr no_ ↦ inr ((λ e. cc (allowed_of_edge e)), rw no_)
    ]

-- The machine after a list of requests, of which the refused ones change nothing.
unfoldable pub apply_all : StateMachine → List State → StateMachine
apply_all sm [] = sm
apply_all sm (t ∷ ts) = apply_all (transition sm t).0 ts

path_of_edges :
    (sm : StateMachine) {s t : State}
    → s ⟶* t
    → sm.state ≡ s
    → (ts : List State) × ((apply_all sm ts).state ≡ t)
unfolding apply_all
path_of_edges sm here e = ([], e)
path_of_edges sm (then {t = m} edge rest) e =
    let (ts, done_) = path_of_edges (transition sm m).0 rest (state_after sm e edge) in
    (m ∷ ts, done_)
  where
    state_after :
        (sm : StateMachine) {s t : State} → sm.state ≡ s → s ⟶ t → (transition sm t).0.state ≡ t
    state_after sm {s} {t} e edge =
        let ok : any_state t (valid_transitions sm.state) ≡ true = rw e (allowed_of_edge edge) in
        unfold transition in rw ok

route_to_stopped : (s : State) → s ⟶* stopped
route_to_stopped stopped = here
route_to_stopped failed = search (here, then, edges)
route_to_stopped stopping = search (here, then, edges)
route_to_stopped s = then (shut (ground arith)) (then finish here)

route_to_running : (s : State) → s ⟶* running
route_to_running running = here
route_to_running starting = search (here, then, edges)
route_to_running paused = search (here, then, edges)
route_to_running stopping = then finish (then (restart (inl refl)) (then launch here))
route_to_running stopped = then (restart (inl refl)) (then launch here)
route_to_running failed = then (restart (inr refl)) (then launch here)

-- Whatever state the machine is in, some list of requests brings it to `stopped`, and some list
-- brings it to `running`.
pub stopped-running-reachable :
    (sm : StateMachine)
    → ((ts : List State) × ((apply_all sm ts).state ≡ stopped))
      × ((ts : List State) × ((apply_all sm ts).state ≡ running))
stopped-running-reachable sm = (
  path_of_edges sm (route_to_stopped sm.state) refl,
  path_of_edges sm (route_to_running sm.state) refl,
)

-- The states before a shutdown or a failure.
abbrev pub is_live : State → Bool
is_live starting = true
is_live running = true
is_live paused = true
is_live _ = false

step_live :
    (sm : StateMachine) (t : State)
    → is_live sm.state ≡ true
    → (is_live (transition sm t).0.state ≡ true) ⊎ (t ≡ stopping) ⊎ (t ≡ failed)
unfolding transition valid_transitions any_state
step_live sm t h = ground arith

-- From a live state the machine is never brought to `stopped` by requests among which there is
-- neither `stopping` nor `failed`: it stays live.
pub stopped_needs_stopping :
    (sm : StateMachine) (ts : List State)
    → is_live sm.state ≡ true
    → All (λ t. (t ≢ stopping) × (t ≢ failed)) ts
    → is_live (apply_all sm ts).state ≡ true
unfolding apply_all
stopped_needs_stopping sm [] live h = live
stopped_needs_stopping sm (t ∷ ts) live h = elim (step_live sm t live) [
  | inl still ↦ stopped_needs_stopping (transition sm t).0 ts still h.1
  | inr (inl e) ↦ absurd (h.0.0 e)
  | inr (inr e) ↦ absurd (h.0.1 e)
]
