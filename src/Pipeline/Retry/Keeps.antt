-- ===== src/Pipeline/Retry/Keeps.antt =====
-- A rule for what holds behind the retryer, whatever its outcome.
use philotes.Common.{ℕ, zero, suc, ◌+◌, ◌<◌, ◌≡◌, refl, Option, none, some, arith, subst, sym}
use philotes.Common.Errors.{GoError}
use philotes.Pipeline.Retry.{
  Outcome, Surroundings, ends, retries, after_attempt, execute_loop, execute,
}

module _ {S : Type 0} (operation : S → S × Option GoError) (env : Surroundings) (max_attempts : ℕ)
    (Keeps : S → Type 0) (each : (s : S) → Keeps s → Keeps (operation s).0) where
  loop-keeps :
      (left attempt waited : ℕ) (last : Option GoError) (s : S)
      → Keeps s
      → Keeps (execute_loop operation max_attempts env left attempt waited last s).0
  unfolding execute_loop
  loop-keeps zero attempt waited last s k = k
  loop-keeps (suc left) attempt waited last s k =
      elim (after_attempt max_attempts env attempt waited (operation s).1)
        as (λ v.
          let r : S × Outcome = elim v [
            | ends o ↦ ((operation s).0, o)
            | retries w e ↦
                execute_loop operation max_attempts env left (attempt + 1) (waited + w) (some e)
                  (operation s).0
          ] in
          Keeps r.0) [
            | ends o ↦ each s k
            | retries w e ↦
                loop-keeps left (attempt + 1) (waited + w) (some e) (operation s).0 (each s k)
          ]

  loop-keeps_first :
      (left attempt waited : ℕ) (last : Option GoError) (s : S)
      → Keeps (operation s).0
      → Keeps (execute_loop operation max_attempts env (suc left) attempt waited last s).0
  unfolding execute_loop
  loop-keeps_first left attempt waited last s k =
      elim (after_attempt max_attempts env attempt waited (operation s).1)
        as (λ v.
          let r : S × Outcome = elim v [
            | ends o ↦ ((operation s).0, o)
            | retries w e ↦
                execute_loop operation max_attempts env left (attempt + 1) (waited + w) (some e)
                  (operation s).0
          ] in
          Keeps r.0) [
            | ends o ↦ k
            | retries w e ↦ loop-keeps left (attempt + 1) (waited + w) (some e) (operation s).0 k
          ]

  -- What the operation keeps, the retryer keeps.
  pub execute-keeps : (s : S) → Keeps s → Keeps (execute operation max_attempts env s).0
  unfolding execute
  execute-keeps s k = loop-keeps max_attempts 1 0 none s k

  -- If an attempt is allowed, the retryer keeps what the first attempt brings about.
  pub execute-keeps_first :
      (s : S)
      → 0 < max_attempts
      → Keeps (operation s).0
      → Keeps (execute operation max_attempts env s).0
  unfolding execute
  execute-keeps_first s pos k = go max_attempts refl
    where
      go :
          (m : ℕ)
          → max_attempts ≡ m
          → Keeps (execute_loop operation max_attempts env max_attempts 1 0 none s).0
      go zero e = absurd (omega arith)
      go (suc m) e =
          subst (λ l. Keeps (execute_loop operation max_attempts env l 1 0 none s).0) (sym e)
            (loop-keeps_first m 1 0 none s k)
