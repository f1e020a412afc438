-- ===== src/Common/Errors.antt =====
-- Go's `error` values, as the chain that `errors.Is` and `errors.As` walk. `plain` and `wrapped` carry
-- a number in place of the message.
use Prim.Native.Nat.{ℕ}
use mathlib.Core.Path.{◌≡◌, refl}
use mathlib.Core.Logic.{◌⊎◌, inl, inr}
use mathlib.Core.Bool.{Bool, true, false}
use mathlib.Core.Option.{Option, none, some}
use mathlib.Core.List.{List, [], ◌∷◌}

pub data GoError : Type 0 where
  canceled : GoError  -- context.Canceled
  deadline_exceeded : GoError  -- context.DeadlineExceeded
  plain : ℕ → GoError  -- errors.New
  wrapped : ℕ → GoError → GoError  -- fmt.Errorf with %w
  retryable_error : GoError → Bool → GoError  -- pipeline.RetryableError

-- `errors.As` at the interface `Retryable`: what the outermost error that implements it says.
abbrev pub as_retryable : GoError → Option Bool
as_retryable (retryable_error e r) = some r
as_retryable (wrapped m e) = as_retryable e
as_retryable _ = none

-- `errors.Is` at the two errors of a context.
abbrev pub is_context_error : GoError → Bool
is_context_error canceled = true
is_context_error deadline_exceeded = true
is_context_error (wrapped m e) = is_context_error e
is_context_error (retryable_error e r) = is_context_error e
is_context_error (plain m) = false

-- A value, or an error.
pub data Fallible {ℓ} (A : Type ℓ) : Type ℓ where
  ok : A → Fallible A
  err : GoError → Fallible A

pub Fallible-cases {ℓ} :
    {A : Type ℓ} (r : Fallible A) → ((a : A) × (r ≡ ok a)) ⊎ ((x : GoError) × (r ≡ err x))
Fallible-cases (ok a) = inl (a, refl)
Fallible-cases (err x) = inr (x, refl)

-- The faults of the statements to come: the first one, and those behind it.
abbrev pub first_fault : List (Option GoError) → Option GoError
first_fault [] = none
first_fault (f ∷ fs) = f

abbrev pub other_faults : List (Option GoError) → List (Option GoError)
other_faults [] = []
other_faults (f ∷ fs) = fs

-- What a statement leaves: what was there, if it fails.
abbrev pub unless {ℓ} : {A : Type ℓ} → Option GoError → A → A → A
unless none old new = new
unless (some x) old new = old
