-- ===== src/Pipeline/Retry.antt =====
-- internal/cdc/pipeline/retry.go: the retryer. Durations are nanoseconds, at least 0.
pub mod Backoff
pub mod Attempts
pub mod Keeps
use philotes.Common.{
  ℕ, zero, suc, ◌+◌, ◌-◌, ◌*◌, ◌/◌, Bool, true, false, not, Option, none, some, leb, ◌==◌,
  if◌then◌else◌,
}
use philotes.Common.Errors.{GoError, as_retryable, is_context_error}
use philotes.Common.Floats.{Floats}

pub record RetryPolicy (f : Floats) : Type 0 where
  pub max_attempts : ℕ
  pub initial_interval : ℕ
  pub max_interval : ℕ
  pub multiplier : f.Float
  pub jitter : Bool

pub record RetryError : Type 0 where
  pub err : Option GoError
  pub attempts : ℕ
  pub last_wait : ℕ

-- What `Execute` does in the end. `panicked` is the panic of `rand.Int64N` at a bound of 0.
pub data Outcome : Type 0 where
  succeeded : Outcome
  gave_up : RetryError → Outcome
  panicked : Outcome

unfoldable pub is_retryable : GoError → Bool
is_retryable e = elim (as_retryable e) [ some r ↦ r | none ↦ not (is_context_error e) ]

-- `random n` is what `rand.Int64N n` returns. `none` is its panic.
unfoldable pub add_jitter : ℕ → (ℕ → ℕ) → Option ℕ
add_jitter duration random =
    let jitter = duration / 4 in
    if jitter * 2 == 0 then none else some (duration - jitter + random (jitter * 2))

-- initialInterval * multiplier^(attempt - 1)
unfoldable pub raw_backoff : (f : Floats) → RetryPolicy f → ℕ → f.Float
raw_backoff f p attempt =
    f.mul (f.of_int p.initial_interval) (f.pow p.multiplier (f.of_int (attempt - 1)))

-- The backoff before the jitter: it is capped, and cut to an integer.
unfoldable pub capped_backoff : (f : Floats) → RetryPolicy f → ℕ → ℕ
capped_backoff f p attempt =
    let backoff = raw_backoff f p attempt in
    f.to_int (if f.gtb backoff (f.of_int p.max_interval) then f.of_int p.max_interval else backoff)

unfoldable pub calculate_backoff : (f : Floats) → RetryPolicy f → (ℕ → ℕ) → ℕ → Option ℕ
unfolding add_jitter capped_backoff
calculate_backoff f p random attempt =
    let duration = capped_backoff f p attempt in
    if p.jitter then add_jitter duration random else some duration

-- What the retryer meets outside the operation: `wait` is the backoff after an attempt, and
-- `interrupted` the error of the context, if that is done before the wait is over.
pub record Surroundings : Type 0 where
  pub wait : ℕ → Option ℕ
  pub interrupted : ℕ → Option GoError

-- What follows an attempt: the loop ends, or waits and goes on with the wait added up.
pub data Verdict : Type 0 where
  ends : Outcome → Verdict
  retries : ℕ → GoError → Verdict

-- The body of the loop behind the call of the operation, with the result of that.
unfoldable pub after_attempt : ℕ → Surroundings → ℕ → ℕ → Option GoError → Verdict
unfolding is_retryable
after_attempt max_attempts env attempt last_wait none = ends succeeded
after_attempt max_attempts env attempt last_wait (some e) =
    if not (is_retryable e)
    then ends (gave_up (record { err = some e; attempts = attempt; last_wait = last_wait }))
    else if leb max_attempts attempt
    then ends (gave_up (record { err = some e; attempts = max_attempts; last_wait = last_wait }))
    else elim (env.wait attempt) [
      | none ↦ ends panicked
      | some w ↦ elim (env.interrupted attempt) [
        | some stop ↦
            ends
              (gave_up (record { err = some stop; attempts = attempt; last_wait = last_wait + w }))
        | none ↦ retries w e
      ]
    ]

module _ {S : Type 0} (operation : S → S × Option GoError) (max_attempts : ℕ)
    (env : Surroundings) where
  -- The rest of the loop: `left` attempts are allowed yet, the next of them is number `attempt`.
  unfoldable pub execute_loop : ℕ → ℕ → ℕ → Option GoError → S → S × Outcome
  execute_loop zero attempt last_wait last_err s =
      (s, gave_up (record { err = last_err; attempts = max_attempts; last_wait = last_wait }))
  execute_loop (suc left) attempt last_wait last_err s =
      let (s', result) = operation s in
      elim (after_attempt max_attempts env attempt last_wait result) [
        | ends o ↦ (s', o)
        | retries w e ↦ execute_loop left (attempt + 1) (last_wait + w) (some e) s'
      ]

  unfoldable pub execute : S → S × Outcome
  unfolding execute_loop
  execute s = execute_loop max_attempts 1 0 none s
