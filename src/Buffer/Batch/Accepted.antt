-- ===== src/Buffer/Batch/Accepted.antt =====
-- A round that returns no error had its batch accepted by the handler.
use philotes.Common.{
  ℕ, zero, suc, ◌+◌, ◌<◌, ◌≡◌, refl, ap, inl, inr, Bool, true, false, ◌&&◌, Option, none, some,
  List, ◌∷◌, leb, is_some, Bool-cases, Option-cases, arith,
}
use philotes.Common.Errors.{GoError, ok}
use philotes.Buffer.{BufferedEvent, Manager}
use philotes.DeadLetter
use philotes.Buffer.Batch.{Round, BatchHandler, Processor}
use philotes.Buffer.Batch.Process.{
  Attempted, taken, stopped, used_up, RoundResult, finished, panicked, event_ids, try_handler,
  note_failure, settle, process_read,
}
use philotes.Buffer.Batch.Tries.{Tried, Tries-Tried, try_handler-Tries}
use philotes.Buffer.Batch.Rounds.{send_to_dlq-some}

abbrev is_taken : Attempted → Bool
is_taken taken = true
is_taken (stopped x) = false
is_taken (used_up x) = false

abbrev no_attempt : Attempted → Bool
no_attempt taken = false
no_attempt (stopped x) = false
no_attempt (used_up none) = true
no_attempt (used_up (some x)) = false

abbrev is_good : RoundResult → Bool
is_good (finished none) = true
is_good (finished (some x)) = false
is_good panicked = false

module _ {m : Manager} {d : DeadLetter.Manager} {H : Type 0} (handler : BatchHandler H)
    (round : Round) where
  -- The handler took the batch in some state, and left the state that the processor has.
  abbrev pub Accepted : List BufferedEvent → Processor m d H → Type 0
  Accepted bs q = (h : H) × (handler bs h ≡ (q.handled, none))

  try_handler-Accepted :
      (bs : List BufferedEvent) (left attempt : ℕ) (last : Option GoError) (p : Processor m d H)
      → is_taken (try_handler handler round bs left attempt last p).1 ≡ true
      → Accepted bs (try_handler handler round bs left attempt last p).0
  unfolding try_handler
  try_handler-Accepted bs zero attempt last p h = absurd (ground (arith, h))
  try_handler-Accepted bs (suc left) attempt last p h =
      elim (Option-cases (handler bs p.handled).1) [
        | inl e ↦ rw (try_handler, e) (p.handled, ap (λ r. ((handler bs p.handled).0, r)) e)
        | inr (x, e) ↦ elim (Bool-cases (leb p.config.retry_max_attempts attempt)) [
          | inl l ↦ absurd (ground (arith, e, l, h))
          | inr l ↦ elim (Option-cases (round.interrupted attempt)) [
            | inl i ↦
                let again =
                  try_handler-Accepted bs left (attempt + 1) (some x)
                    (note_failure p (handler bs p.handled).0) in
                rw (try_handler, e, l, i)
                  (again (unfold note_failure in ground (arith, e, l, i, h)))
            | inr (y, i) ↦ absurd (ground (arith, e, l, i, h))
          ]
        ]
      ]

  settle-Accepted :
      (bs : List BufferedEvent) (p1 : Processor m d H) (a : Attempted)
      → Tried a
      → (is_taken a ≡ true → Accepted bs p1)
      → is_good (settle round bs (p1, a)).1 ≡ true
      → Accepted bs (settle round bs (p1, a)).0
  unfolding settle
  settle-Accepted bs p1 taken tried accepted good =
      elim (Option-cases (m.mark_processed (event_ids bs) p1.store).1) [
        | inl e ↦ rw (settle, e) (accepted refl)
        | inr (x, e) ↦ absurd (ground (arith, e, good))
      ]
  settle-Accepted bs p1 (stopped x) tried accepted good = absurd (ground (arith, good))
  settle-Accepted bs p1 (used_up (some x)) tried accepted good =
      elim (Bool-cases (p1.config.dlq_enabled && is_some p1.letters)) [
        | inr off ↦ absurd (ground (arith, off, good))
        | inl on ↦
            let (q, e) = send_to_dlq-some round x bs p1 in absurd (ground (arith, on, e, good))
      ]
  settle-Accepted bs p1 (used_up none) tried accepted good = elim tried [
    | inl e ↦ absurd (ground (arith, ap no_attempt e))
    | inr (inl (x, e)) ↦ absurd (ground (arith, ap no_attempt e))
    | inr (inr (x, e)) ↦ absurd (ground (arith, ap no_attempt e))
  ]

  -- If an attempt is allowed: a round over a batch that was read and is not empty, which returns no error.
  pub process_read-Accepted :
      (b : BufferedEvent) (bs : List BufferedEvent) (p : Processor m d H)
      → 0 < p.config.retry_max_attempts
      → (process_read handler round p (ok (b ∷ bs))).1 ≡ finished none
      → Accepted (b ∷ bs) (process_read handler round p (ok (b ∷ bs))).0
  unfolding process_read
  process_read-Accepted b bs p allowed good =
      let t = try_handler handler round (b ∷ bs) p.config.retry_max_attempts 1 none p in
      settle-Accepted (b ∷ bs) t.0 t.1
        (Tries-Tried (
          try_handler-Tries handler round (b ∷ bs) p.config.retry_max_attempts 1 none p
            (omega arith) allowed))
        (try_handler-Accepted (b ∷ bs) p.config.retry_max_attempts 1 none p) (ap is_good good)
