-- ===== src/Buffer/Batch/Delivery.antt =====
-- The processor over the table: what a round takes from the queue of its source.
use philotes.Common.{
  ℕ, zero, suc, ◌<◌, ◌≡◌, refl, sym, ap, ◌⊎◌, inl, inr, none, List, [], ◌∷◌, take, drop, arith,
}
use philotes.Common.Errors.{ok}
use philotes.Buffer.{BufferedEvent}
use philotes.DeadLetter
use philotes.Buffer.Postgres.{Db}
use philotes.Buffer.Postgres.Statements.{read_batch, mark_processed, postgres}
use philotes.Buffer.Postgres.Queue.{pending, IsTable, read_batch-pending, pending-mark_batch}
use philotes.Buffer.Batch.{Round, BatchHandler, Processor}
use philotes.Buffer.Batch.Process.{RoundResult, finished, event_ids, process_batch_with_retry}
use philotes.Buffer.Batch.Rounds.{
  Ends, unread, empty, delivered, unmarked, interrupted, given_up, untried, crashed,
  process_batch-Ends,
}

-- The queue behind a round from `p` to `q`: as it was, or without its first batch.
abbrev pub Took :
    {d : DeadLetter.Manager} {H : Type 0} → Processor postgres d H → Processor postgres d H → Type 0
Took p q =
    let source = p.config.source_id in
    (pending source q.store ≡ pending source p.store)
    ⊎ (pending source q.store ≡ drop p.config.batch_size (pending source p.store))

module _ {d : DeadLetter.Manager} {H : Type 0} (p : Processor postgres d H) (t : IsTable p.store)
    (handler : BatchHandler H) (round : Round) (q : Processor postgres d H)
    (result : RoundResult) where
  same_rows :
      (st : Db)
      → st.rows ≡ p.store.rows
      → q.store ≡ st
      → pending p.config.source_id q.store ≡ pending p.config.source_id p.store
  same_rows st rows_are same = rw (same, rows_are)

  marked_batch :
      (bs : List BufferedEvent)
      → let (st, read) = read_batch p.config.source_id p.config.batch_size p.store in
        read ≡ ok bs → q.store ≡ (mark_processed (event_ids bs) st).0 → Took p q
  marked_batch bs read same =
      let (st, read_) = read_batch p.config.source_id p.config.batch_size p.store in
      elim (pending-mark_batch p.config.source_id p.config.batch_size p.store st bs t
        (ap (λ x. (st, x)) read)) [
          | inl (e, dropped) ↦ inr (rw same dropped)
          | inr (x, e, kept) ↦ inl (rw same kept)
        ]

  Ends-Took :
      let (st, read) = read_batch p.config.source_id p.config.batch_size p.store in
      Ends handler round p st read q result → Took p q
  Ends-Took e =
      let (st, read_) = read_batch p.config.source_id p.config.batch_size p.store in
      let rows_are = (read_batch-pending p.config.source_id p.config.batch_size p.store t).0 in
      elim e [
        | unread x read same _ _ ↦ inl (same_rows st rows_are same)
        | empty read same _ _ ↦ inl (same_rows st rows_are same)
        | delivered bs read _ _ same _ _ _ _ _ ↦ marked_batch bs read same
        | unmarked bs x read _ _ same _ _ _ ↦ marked_batch bs read same
        | interrupted bs x read _ same _ _ _ ↦ inl (same_rows st rows_are same)
        | given_up bs x read _ same _ _ _ _ ↦ marked_batch bs read same
        | untried bs _ read same _ _ _ ↦ marked_batch bs read same
        | crashed bs _ _ read same _ _ ↦ inl (same_rows st rows_are same)
      ]

drop_of_empty {ℓ} : {A : Type ℓ} (n : ℕ) (xs : List A) → [] ≡ take n xs → drop n xs ≡ xs
drop_of_empty zero xs e = refl
drop_of_empty (suc n) [] e = refl
drop_of_empty (suc n) (x ∷ xs) e = ground (arith, e)

-- On a well-formed table a round leaves the queue of its source as it was, or takes just the first
-- `batch_size` events from it, whatever the handler and the dead-letter queue do and whichever
-- statement fails.
pub round-Took :
    {d : DeadLetter.Manager} {H : Type 0} (handler : BatchHandler H) (round : Round)
    (p : Processor postgres d H)
    → IsTable p.store
    → Took p (process_batch_with_retry handler round p).0
round-Took handler round p t =
    let (q, result) = process_batch_with_retry handler round p in
    Ends-Took p t handler round q result (process_batch-Ends handler round p)

-- On a well-formed table, if an attempt is allowed, a round that returns no error has taken just the
-- first `batch_size` events from its source's queue.
pub finished-drops_batch :
    {d : DeadLetter.Manager} {H : Type 0} (handler : BatchHandler H) (round : Round)
    (p : Processor postgres d H)
    → IsTable p.store
    → 0 < p.config.retry_max_attempts
    → let (q, result) = process_batch_with_retry handler round p in
      result ≡ finished none
      → pending p.config.source_id q.store
        ≡ drop p.config.batch_size (pending p.config.source_id p.store)
finished-drops_batch handler round p t allowed ok_ =
    let source = p.config.source_id in
    let limit = p.config.batch_size in
    let (st, read_) = read_batch source limit p.store in
    let (rows_are, what) = read_batch-pending source limit p.store t in
    let (q, result) = process_batch_with_retry handler round p in
    elim (process_batch-Ends handler round p) [
      | unread x read same _ r ↦ absurd (ground (arith, ok_, r))
      | empty read same _ r ↦
          let nothing : [] ≡ take limit (pending source p.store) = elim what [
            | inl (bs, read', are) ↦ ground (arith, read, read', are)
            | inr (x, read') ↦ absurd (ground (arith, read, read'))
          ] in
          rw (same, rows_are) (sym (drop_of_empty limit (pending source p.store) nothing))
      | delivered bs read _ done_ same _ _ _ _ _ ↦
          elim (pending-mark_batch source limit p.store st bs t (ap (λ x. (st, x)) read)) [
            | inl (e, dropped) ↦ rw same dropped
            | inr (x, e, kept) ↦ absurd (ground (arith, done_, e))
          ]
      | unmarked bs x read _ _ same _ _ r ↦ absurd (ground (arith, ok_, r))
      | interrupted bs x read _ same _ _ r ↦ absurd (ground (arith, ok_, r))
      | given_up bs x read _ same _ _ _ r ↦ absurd (ground (arith, ok_, r))
      | untried bs z read same _ _ _ ↦ absurd (omega arith)
      | crashed bs z _ read same _ r ↦ absurd (omega arith)
    ]
