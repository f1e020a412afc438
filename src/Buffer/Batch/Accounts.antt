-- ===== src/Buffer/Batch/Accounts.antt =====
-- How a round ends, for any buffer, dead-letter queue and handler.
use philotes.Common.{
  ℕ, zero, suc, ◌+◌, ◌≤◌, ◌≡◌, ◌∙◌, inl, inr, Option, some, List, [], ◌∷◌, length, Option-cases,
  arith,
}
use philotes.Common.Errors.{GoError}
use philotes.Buffer.{BufferedEvent, Manager}
use philotes.DeadLetter
use philotes.Buffer.Batch.{Round, BatchHandler, Processor}
use philotes.Buffer.Batch.Process.{try_handler, note_failure, send_event, send_to_dlq}

module _ {m : Manager} {d : DeadLetter.Manager} {H : Type 0} where
  -- What the attempts leave alone.
  pub record Attempts (p q : Processor m d H) : Type 0 where
    pub config_kept : q.config ≡ p.config
    pub store_kept : q.store ≡ p.store
    pub letters_kept : q.letters ≡ p.letters
    pub batches_kept : q.stats.batches_processed ≡ p.stats.batches_processed
    pub processed_kept : q.stats.events_processed ≡ p.stats.events_processed
    pub failed_kept : q.stats.events_failed ≡ p.stats.events_failed
    pub letters_counted : q.stats.dlq_count ≡ p.stats.dlq_count
    pub retried : p.stats.retry_count ≤ q.stats.retry_count

  pub try_handler-Attempts :
      (handler : BatchHandler H) (round : Round) (bs : List BufferedEvent) (left attempt : ℕ)
      (last : Option GoError) (p : Processor m d H)
      → Attempts p (try_handler handler round bs left attempt last p).0
  unfolding try_handler
  try_handler-Attempts handler round bs zero attempt last p = ground arith
  try_handler-Attempts handler round bs (suc left) attempt last p =
      elim (Option-cases (handler bs p.handled).1) [
        | inl e ↦ ground (arith, e)
        | inr (x, e) ↦
            let next = note_failure p (handler bs p.handled).0 in
            let ih = try_handler-Attempts handler round bs left (attempt + 1) (some x) next in
            unfold note_failure in ground (arith, e, ih)
      ]

  -- What the dead letters leave alone: at most one is counted for each event.
  pub record Letters (n : ℕ) (p q : Processor m d H) : Type 0 where
    pub config_kept : q.config ≡ p.config
    pub store_kept : q.store ≡ p.store
    pub batches_kept : q.stats.batches_processed ≡ p.stats.batches_processed
    pub processed_kept : q.stats.events_processed ≡ p.stats.events_processed
    pub failed_kept : q.stats.events_failed ≡ p.stats.events_failed
    pub retries_kept : q.stats.retry_count ≡ p.stats.retry_count
    pub letters_counted : q.stats.dlq_count ≤ p.stats.dlq_count + n

  send_event-Letters :
      (round : Round) (last : Option GoError) (b : BufferedEvent) (p q : Processor m d H)
      → send_event round last b p ≡ some q
      → Letters 1 p q
  unfolding send_event
  send_event-Letters round last b p q e = ground arith

  pub send_to_dlq-Letters :
      (round : Round) (last : Option GoError) (bs : List BufferedEvent) (p q : Processor m d H)
      → send_to_dlq round last bs p ≡ some q
      → Letters (length bs) p q
  unfolding send_to_dlq
  send_to_dlq-Letters round last [] p q e = ground arith
  send_to_dlq-Letters round last (b ∷ bs) p q e = elim (Option-cases (send_event round last b p)) [
    | inl none_ ↦ ground (arith, none_)
    | inr (r, some_) ↦
        let one = send_event-Letters round last b p r some_ in
        let rest = send_to_dlq-Letters round last bs r q (ground (arith, some_)) in
        record {
          config_kept = rest.config_kept ∙ one.config_kept;
          store_kept = rest.store_kept ∙ one.store_kept;
          batches_kept = omega arith;
          processed_kept = omega arith;
          failed_kept = omega arith;
          retries_kept = omega arith;
          letters_counted = omega arith;
        }
  ]
