-- ===== src/Buffer/Batch/Tries.antt =====
-- internal/cdc/buffer/batch.go: how the attempts of a round end.
use philotes.Common.{
  ℕ, zero, suc, ◌+◌, ◌≤◌, ◌<◌, ◌≡◌, refl, ◌⊎◌, inl, inr, Option, none, some, List, leb, Bool-cases,
  Option-cases, arith,
}
use philotes.Common.Errors.{GoError}
use philotes.Buffer.{BufferedEvent, Manager}
use philotes.DeadLetter
use philotes.Buffer.Batch.{Round, BatchHandler, Processor}
use philotes.Buffer.Batch.Process.{Attempted, taken, stopped, used_up, try_handler, note_failure}

-- How the attempts end that begin with number `attempt` in the handler's state `h`, if `max` are allowed.
-- The handler takes the batch; it fails at the last attempt; it fails and the wait behind it is
-- interrupted; or it fails, the wait is over, and it is tried again in the state that it left.
pub data Tries {H : Type 0} (handler : BatchHandler H) (round : Round) (bs : List BufferedEvent)
    (max : ℕ) : ℕ → H → Attempted → Type 0 where
  accepts :
      {attempt : ℕ} {h : H} → (handler bs h).1 ≡ none → Tries handler round bs max attempt h taken
  gives_up :
      {attempt : ℕ} {h : H} (x : GoError)
      → (handler bs h).1 ≡ some x
      → max ≤ attempt
      → Tries handler round bs max attempt h (used_up (some x))
  stops :
      {attempt : ℕ} {h : H} (x stop : GoError)
      → (handler bs h).1 ≡ some x
      → attempt < max
      → round.interrupted attempt ≡ some stop
      → Tries handler round bs max attempt h (stopped stop)
  again :
      {attempt : ℕ} {h : H} {a : Attempted} (x : GoError)
      → (handler bs h).1 ≡ some x
      → attempt < max
      → round.interrupted attempt ≡ none
      → Tries handler round bs max (attempt + 1) (handler bs h).0 a
      → Tries handler round bs max attempt h a

abbrev pub Tried : Attempted → Type 0
Tried a = (a ≡ taken) ⊎ ((x : GoError) × (a ≡ stopped x)) ⊎ ((x : GoError) × (a ≡ used_up (some x)))

-- Attempts that are used up leave an error.
pub Tries-Tried :
    {H : Type 0} {handler : BatchHandler H} {round : Round} {bs : List BufferedEvent} {max : ℕ}
    {attempt : ℕ} {h : H} {a : Attempted}
    → Tries handler round bs max attempt h a
    → Tried a
Tries-Tried (accepts e) = inl refl
Tries-Tried (gives_up x e l) = inr (inr (x, refl))
Tries-Tried (stops x stop e l i) = inr (inl (stop, refl))
Tries-Tried (again x e l i t) = Tries-Tried t

module _ {m : Manager} {d : DeadLetter.Manager} {H : Type 0} where
  pub try_handler-Tries :
      (handler : BatchHandler H) (round : Round) (bs : List BufferedEvent) (left attempt : ℕ)
      (last : Option GoError) (p : Processor m d H)
      → left + attempt ≡ p.config.retry_max_attempts + 1
      → 0 < left
      → Tries handler round bs p.config.retry_max_attempts attempt p.handled
          (try_handler handler round bs left attempt last p).1
  unfolding try_handler note_failure
  try_handler-Tries handler round bs zero attempt last p all h = absurd (omega arith)
  try_handler-Tries handler round bs (suc left) attempt last p all h =
      elim (Option-cases (handler bs p.handled).1) [
        | inl e ↦ rw (e, try_handler) (accepts e)
        | inr (x, e) ↦ elim (Bool-cases (leb p.config.retry_max_attempts attempt)) [
          | inl l ↦ rw (e, l, try_handler) (gives_up x e (ground arith))
          | inr l ↦
              let lt : attempt < p.config.retry_max_attempts = ground arith in
              elim (Option-cases (round.interrupted attempt)) [
                | inr (y, i) ↦ rw (e, l, i, try_handler) (stops x y e lt i)
                | inl i ↦
                    rw (e, l, i, try_handler)
                      (again x e lt i (
                        try_handler-Tries handler round bs left (attempt + 1) (some x)
                          (note_failure p (handler bs p.handled).0) (omega arith) (omega arith)))
              ]
        ]
      ]
