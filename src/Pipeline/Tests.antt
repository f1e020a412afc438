-- ===== src/Pipeline/Tests.antt =====
-- Runs of the pipeline's parts, and each theorem about them at a concrete input.
use philotes.Common.{
  ℕ, ◌+◌, ◌-◌, ◌*◌, ◌/◌, ◌^◌, ◌≤◌, ◌<◌, ◌≡◌, refl, ◌⊎◌, inl, inr, true, false, Option, none, some,
  List, [], ◌∷◌, map, ltb, leb, ◌==◌, if◌then◌else◌, arith,
}
use philotes.Common.Errors.{GoError, plain}
use philotes.Common.Floats.{Floats, FloatLaws}
use philotes.Pipeline.State.{
  State, running, paused, stopped, StateMachine, done, invalid, transition,
}
use philotes.Pipeline.State.Graph.{
  ◌⟶◌, apply_all, is_live, transition-follows_diagram, stopped-running-reachable,
  stopped_needs_stopping,
}
use philotes.Pipeline.Backpressure.{
  Controller, default_backpressure_config, new_backpressure_controller, check, check_seen, start,
}
use philotes.Pipeline.Backpressure.Hysteresis.{
  trigger_all, start-refines_trigger, check-keeps_shutdown, check-resumes_any_pause,
}
use philotes.Pipeline.Retry.{
  RetryPolicy, succeeded, gave_up, Surroundings, raw_backoff, capped_backoff, calculate_backoff,
  after_attempt, execute,
}
use philotes.Pipeline.Retry.Attempts.{Explains, execute-Explains}
use philotes.Pipeline.Retry.Backoff.{calculate_backoff-bounds}

abbrev at_work : StateMachine
at_work = record { state = running; listeners = 0 ∷ 1 ∷ [] }

abbrev at_rest : StateMachine
at_rest = record { state = paused; listeners = [] }

abbrev shut : StateMachine
shut = record { state = stopped; listeners = [] }

-- Both listeners hear of a pause, in order.
pause_is_heard : transition at_work paused ≡ (
  record { state = paused; listeners = 0 ∷ 1 ∷ [] },
  done (
      record { listener = 0; from = running; to = paused }
      ∷ record { listener = 1; from = running; to = paused }
      ∷ []),
)
unfolding transition
pause_is_heard = refl

transition-follows_diagram_example :
    ((running ⟶ stopped)
      × (transition at_work stopped ≡ (
        record { state = stopped; listeners = 0 ∷ 1 ∷ [] },
        done (map (λ l. record { listener = l; from = running; to = stopped }) (0 ∷ 1 ∷ [])),
      )))
    ⊎ ((¬ (running ⟶ stopped)) × (transition at_work stopped ≡ (at_work, invalid running stopped)))
transition-follows_diagram_example = transition-follows_diagram at_work stopped

stopped-running-reachable_example :
    ((ts : List State) × ((apply_all at_rest ts).state ≡ stopped))
    × ((ts : List State) × ((apply_all at_rest ts).state ≡ running))
stopped-running-reachable_example = stopped-running-reachable at_rest

stopped_needs_stopping_run :
    is_live (apply_all at_work (paused ∷ stopped ∷ running ∷ [])).state ≡ true
stopped_needs_stopping_run =
    stopped_needs_stopping at_work (paused ∷ stopped ∷ running ∷ []) refl
      ((λ e. cc, λ e. cc), ((λ e. cc, λ e. cc), ((λ e. cc, λ e. cc), tt)))

abbrev readings : List (ℕ × Option ℕ)
readings = (1, some 100) ∷ (2, some 9000) ∷ (3, some 6000) ∷ (4, none) ∷ []

start-refines_trigger_example :
    let (c, sm) =
      start (new_backpressure_controller default_backpressure_config) at_work readings in
    let on = trigger_all default_backpressure_config false readings in
    (sm.state ≡ (if on then paused else running))
    × (c.paused ≡ on)
    × (c.pause_count ≡ c.resume_count + (if on then 1 else 0))
start-refines_trigger_example =
    start-refines_trigger default_backpressure_config at_work readings refl (omega arith) refl

-- The trigger is set by the second reading, and the two after it leave it so.
readings_pause : trigger_all default_backpressure_config false readings ≡ true
readings_pause = refl

abbrev controller : Controller
controller = record {
  config = default_backpressure_config;
  paused = false;
  paused_at = 0;
  resumed_at = 0;
  pause_count = 0;
  resume_count = 0;
  last_size = 0;
}

shutdown_stays :
    let (c, sm) = check_seen controller running shut 5 (some 9000) in
    (sm ≡ shut) × (c.paused ≡ false) × (c.pause_count ≡ 0) × (c.resume_count ≡ 0)
shutdown_stays = check-keeps_shutdown controller running shut 5 (some 9000) (inr (inl refl))

check-resumes_any_pause_run :
    let (c, sm) = check controller at_rest 5 (some 10) in
    (sm.state ≡ running) × (c.paused ≡ false) × (c.resume_count ≡ 1) × (c.pause_count ≡ 0)
check-resumes_any_pause_run = check-resumes_any_pause controller at_rest 5 10 refl (omega arith)

-- An operation that fails twice, and then succeeds.
abbrev third_time : ℕ → ℕ × Option GoError
third_time n = (n + 1, if ltb n 2 then some (plain n) else none)

abbrev calm : Surroundings
calm = record { wait = λ n. some (100 * n); interrupted = λ _. none }

third_time_works : execute third_time 3 calm 0 ≡ (3, succeeded)
unfolding execute after_attempt
third_time_works = refl

too_few_attempts :
    execute third_time 2 calm 0
    ≡ (2, gave_up (record { err = some (plain 1); attempts = 2; last_wait = 100 }))
unfolding execute after_attempt
too_few_attempts = refl

execute-Explains_example : Explains third_time calm 3 0 (execute third_time 3 calm 0)
execute-Explains_example = execute-Explains third_time calm 3 0

-- Floats of which the backoff sees integers only.
abbrev whole : Floats
whole = record {
  Float = ℕ;
  of_int = λ n. n;
  to_int = λ n. n;
  mul = λ a b. a * b;
  pow = λ a b. a ^ b;
  gtb = λ a b. ltb b a;
  ltb = λ a b. ltb a b;
  geb = λ a b. leb b a;
  leb = λ a b. leb a b;
  eqb = λ a b. a == b;
  is_nan = λ _. false;
}

whole-FloatLaws : FloatLaws whole
whole-FloatLaws = record { exact = λ n h. refl; truncates = λ x n h num le. ground arith }

abbrev doubling : RetryPolicy whole
doubling = record {
  max_attempts = 5;
  initial_interval = 1000;
  max_interval = 30000;
  multiplier = 2;
  jitter = true;
}

half : ℕ → ℕ
half n = n / 2

half-lt : (n : ℕ) → 0 < n → half n < n
unfolding half
half-lt n h = omega arith

calculate_backoff-bounds_example :
    let d = capped_backoff whole doubling 3 in
    let result = calculate_backoff whole doubling half 3 in
    (d ≤ 30000)
    × (((true ≡ false) × (result ≡ some d))
        ⊎ ((true ≡ true) × (result ≡ none) × (d < 4))
        ⊎ ((w : ℕ) × (true ≡ true)
            × (result ≡ some w)
            × (4 ≤ d)
            × (d - d / 4 ≤ w)
            × (w ≤ d + d / 4)))
calculate_backoff-bounds_example =
    calculate_backoff-bounds whole whole-FloatLaws doubling half 3 half-lt (omega arith) refl

third_backoff : capped_backoff whole doubling 3 ≡ 4000
unfolding capped_backoff raw_backoff
third_backoff = refl
