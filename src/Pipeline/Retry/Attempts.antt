-- ===== src/Pipeline/Retry/Attempts.antt =====
-- What each result of the retryer means.
use philotes.Common.{
  ℕ, zero, suc, ◌+◌, ◌≤◌, ◌<◌, ◌≡◌, refl, ◌⊎◌, inl, inr, true, false, Option, none, some, arith,
  Bool-cases, Option-cases, leb, leb→le,
}
use philotes.Common.Errors.{GoError}
use native.Mathlib.Numerals.{add-one}
use philotes.Pipeline.Retry.{
  Outcome, succeeded, gave_up, panicked, Surroundings, Verdict, ends, retries, is_retryable,
  after_attempt, execute_loop, execute,
}

module _ {S : Type 0} (operation : S → S × Option GoError) (env : Surroundings) where
  -- `n` attempts in a row from `s`, each failing with a retryable error and followed by a whole wait.
  -- The last state, the sum of the waits and the last error are the other indices.
  pub data Retried (s : S) : ℕ → S → ℕ → Option GoError → Type 0 where
    start : Retried s 0 s 0 none
    again :
        {n : ℕ} {t : S} {waited : ℕ} {last : Option GoError}
        → Retried s n t waited last
        → (e : GoError) (w : ℕ) → (operation t).1 ≡ some e
        → is_retryable e ≡ true
        → env.wait (suc n) ≡ some w
        → env.interrupted (suc n) ≡ none
        → Retried s (suc n) (operation t).0 (waited + w) (some e)

  -- How the loop ends at its attempt number n + 1, or behind its last one.
  pub data Explains (max_attempts : ℕ) (s : S) : S × Outcome → Type 0 where
    success :
        {n : ℕ} {t : S} {waited : ℕ} {last : Option GoError}
        → Retried s n t waited last
        → n < max_attempts
        → (operation t).1 ≡ none
        → Explains max_attempts s ((operation t).0, succeeded)
    refusal :
        {n : ℕ} {t : S} {waited : ℕ} {last : Option GoError}
        → Retried s n t waited last
        → n < max_attempts
        → (e : GoError) → (operation t).1 ≡ some e
        → is_retryable e ≡ false
        → Explains max_attempts s (
          (operation t).0,
          gave_up (record { err = some e; attempts = suc n; last_wait = waited }),
        )
    exhaustion :
        {n : ℕ} {t : S} {waited : ℕ} {last : Option GoError}
        → Retried s n t waited last
        → suc n ≡ max_attempts
        → (e : GoError) → (operation t).1 ≡ some e
        → is_retryable e ≡ true
        → Explains max_attempts s (
          (operation t).0,
          gave_up (record { err = some e; attempts = max_attempts; last_wait = waited }),
        )
    interruption :
        {n : ℕ} {t : S} {waited : ℕ} {last : Option GoError}
        → Retried s n t waited last
        → suc n < max_attempts
        → (e stop : GoError) (w : ℕ) → (operation t).1 ≡ some e
        → is_retryable e ≡ true
        → env.wait (suc n) ≡ some w
        → env.interrupted (suc n) ≡ some stop
        → Explains max_attempts s (
          (operation t).0,
          gave_up (record { err = some stop; attempts = suc n; last_wait = waited + w }),
        )
    panic :
        {n : ℕ} {t : S} {waited : ℕ} {last : Option GoError}
        → Retried s n t waited last
        → suc n < max_attempts
        → (e : GoError) → (operation t).1 ≡ some e
        → is_retryable e ≡ true
        → env.wait (suc n) ≡ none
        → Explains max_attempts s ((operation t).0, panicked)
    never :
        max_attempts ≡ 0
        → Explains max_attempts s
            (s, gave_up (record { err = none; attempts = max_attempts; last_wait = 0 }))

  -- The six ways out of the loop's body.
  abbrev Cases : ℕ → ℕ → ℕ → Option GoError → Verdict → Type 0
  Cases max_attempts attempt waited result v =
      ((result ≡ none) × (v ≡ ends succeeded))
      ⊎ ((e : GoError) × (result ≡ some e)
          × (is_retryable e ≡ false)
          × (v ≡ ends (gave_up (record { err = some e; attempts = attempt; last_wait = waited }))))
      ⊎ ((e : GoError) × (result ≡ some e)
          × (is_retryable e ≡ true)
          × (max_attempts ≤ attempt)
          × (v
              ≡ ends
                  (gave_up (record { err = some e; attempts = max_attempts; last_wait = waited }))))
      ⊎ ((e : GoError) × (result ≡ some e)
          × (is_retryable e ≡ true)
          × (attempt < max_attempts)
          × (env.wait attempt ≡ none)
          × (v ≡ ends panicked))
      ⊎ ((e : GoError) × (w : ℕ) × (stop : GoError) × (result ≡ some e)
          × (is_retryable e ≡ true)
          × (attempt < max_attempts)
          × (env.wait attempt ≡ some w)
          × (env.interrupted attempt ≡ some stop)
          × (v
              ≡ ends (
                  gave_up
                    (record { err = some stop; attempts = attempt; last_wait = waited + w }))))
      ⊎ ((e : GoError) × (w : ℕ) × (result ≡ some e)
          × (is_retryable e ≡ true)
          × (attempt < max_attempts)
          × (env.wait attempt ≡ some w)
          × (env.interrupted attempt ≡ none)
          × (v ≡ retries w e))

  after_attempt-Cases :
      (max_attempts attempt waited : ℕ) (result : Option GoError)
      → Cases max_attempts attempt waited result
          (after_attempt max_attempts env attempt waited result)
  unfolding after_attempt
  after_attempt-Cases max_attempts attempt waited none = inl (refl, refl)
  after_attempt-Cases max_attempts attempt waited (some e) = elim (Bool-cases (is_retryable e)) [
    | inr no_ ↦ inr (inl (e, refl, no_, rw (no_, after_attempt)))
    | inl re ↦ elim (Bool-cases (leb max_attempts attempt)) [
      | inl over ↦ inr (
          inr
            (inl (e, refl, re, leb→le _ _ over, rw (re, after_attempt) (rw (over, after_attempt)))))
      | inr more ↦
          let lt : attempt < max_attempts = ground arith in
          elim (Option-cases (env.wait attempt)) [
            | inl w ↦ inr (inr (inr (inl (e, refl, re, lt, w, rw re (rw more (rw w))))))
            | inr (w, wt) ↦ elim (Option-cases (env.interrupted attempt)) [
              | inl int ↦ inr (
                  inr (
                    inr
                      (inr (inr (e, w, refl, re, lt, wt, int, rw re (rw more (rw wt (rw int))))))))
              | inr (stop, int) ↦ inr (
                  inr (
                    inr (
                      inr (
                        inl
                          (e, w, stop, refl, re, lt, wt, int, rw re (rw more (rw wt (rw int))))))))
            ]
          ]
    ]
  ]

  loop-Explains :
      (max_attempts left n : ℕ) (s t : S) (waited : ℕ) (last : Option GoError)
      → Retried s n t waited last
      → n + left ≡ max_attempts
      → 0 < left
      → Explains max_attempts s (execute_loop operation max_attempts env left (suc n) waited last t)
  unfolding execute_loop
  loop-Explains max_attempts zero n s t waited last r h pos = absurd (omega arith)
  loop-Explains max_attempts (suc left) n s t waited last r h pos =
      elim (after_attempt-Cases max_attempts (suc n) waited (operation t).1) [
        | inl (ok, v) ↦ rw (v, execute_loop) (success r (omega arith) ok)
        | inr (inl (e, err, no_, v)) ↦ rw (v, execute_loop) (refusal r (omega arith) e err no_)
        | inr (inr (inl (e, err, re, last_, v))) ↦
            rw (v, execute_loop) (exhaustion r (omega arith) e err re)
        | inr (inr (inr (inl (e, err, re, more, w, v)))) ↦
            rw (v, execute_loop) (panic r more e err re w)
        | inr (inr (inr (inr (inl (e, w, stop, err, re, more, wt, int, v))))) ↦
            rw (v, execute_loop) (interruption r more e stop w err re wt int)
        | inr (inr (inr (inr (inr (e, w, err, re, more, wt, int, v))))) ↦
            rw (v, execute_loop)
              (rw add-one (
                loop-Explains max_attempts left (suc n) s (operation t).0 (waited + w) (some e)
                  (again r e w err re wt int) (omega arith) (omega arith)))
      ]

-- How `Execute` ends, and what it did before: it made the attempts that its result counts (at most
-- `max_attempts`), each but the last failing with a retryable error and followed by a whole wait. It
-- succeeds at the first attempt that does; it gives up at once at an error that is not retryable, at
-- the context's error when a wait is interrupted, and with the last error when the attempts are used
-- up; it panics if the backoff does. With no attempt allowed it does nothing, and its error holds none.
pub execute-Explains :
    {S : Type 0} (operation : S → S × Option GoError) (env : Surroundings) (max_attempts : ℕ)
    (s : S)
    → Explains operation env max_attempts s (execute operation max_attempts env s)
unfolding execute
execute-Explains operation env zero s = unfold execute_loop in never refl
execute-Explains operation env (suc m) s =
    loop-Explains operation env (suc m) (suc m) 0 s s 0 none start (omega arith) (omega arith)
