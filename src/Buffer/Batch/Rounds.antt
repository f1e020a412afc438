-- ===== src/Buffer/Batch/Rounds.antt =====
-- The ways in which a round can end.
use philotes.Common.{
  ℕ, zero, suc, ◌+◌, ◌≤◌, ◌≡◌, refl, subst, inl, inr, true, ◌&&◌, none, some, List, [], ◌∷◌, length,
  is_some, Bool-cases, Option-cases, arith,
}
use philotes.Common.Errors.{GoError, Fallible, ok, err}
use philotes.Buffer.{BufferedEvent, Manager}
use philotes.DeadLetter
use philotes.Buffer.Batch.{Round, BatchHandler, Processor}
use philotes.Buffer.Batch.Process.{
  Attempted, taken, stopped, used_up, RoundResult, finished, panicked, event_ids, try_handler,
  send_event, send_to_dlq, settle, process_read, process_batch_with_retry,
}
use philotes.Buffer.Batch.Accounts.{Attempts, try_handler-Attempts, send_to_dlq-Letters}
use philotes.Buffer.Batch.Tries.{Tries, Tries-Tried, try_handler-Tries}

module _ {m : Manager} {d : DeadLetter.Manager} {H : Type 0} where
  -- With an error at hand the dead letters do not panic.
  pub send_to_dlq-some :
      (round : Round) (x : GoError) (bs : List BufferedEvent) (p : Processor m d H)
      → (q : Processor m d H) × (send_to_dlq round (some x) bs p ≡ some q)
  unfolding send_to_dlq
  send_to_dlq-some round x [] p = (p, refl)
  send_to_dlq-some round x (b ∷ bs) p = elim (Option-cases (send_event round (some x) b p)) [
    | inl none_ ↦ absurd (unfold send_event in ground (arith, none_))
    | inr (r, some_) ↦ let (q, e) = send_to_dlq-some round x bs r in (q, ground (arith, some_, e))
  ]

-- How a round from `p` ends in `q` with a result, where the read left the store `st` and gave `read`.
pub data Ends {m : Manager} {d : DeadLetter.Manager} {H : Type 0} (handler : BatchHandler H)
    (round : Round) (p : Processor m d H) (st : m.Store) (read : Fallible (List BufferedEvent))
    (q : Processor m d H) (result : RoundResult) : Type 0 where
  unread :
      (x : GoError)
      → read ≡ err x
      → q.store ≡ st
      → q.stats ≡ p.stats
      → result ≡ finished (some x)
      → Ends handler round p st read q result
  empty :
      read ≡ ok []
      → q.store ≡ st
      → q.stats ≡ p.stats
      → result ≡ finished none
      → Ends handler round p st read q result
  delivered :
      (bs : List BufferedEvent)
      → read ≡ ok bs
      → Tries handler round bs p.config.retry_max_attempts 1 p.handled taken
      → (m.mark_processed (event_ids bs) st).1 ≡ none
      → q.store ≡ (m.mark_processed (event_ids bs) st).0
      → q.stats.batches_processed ≡ p.stats.batches_processed + 1
      → q.stats.events_processed ≡ p.stats.events_processed + length bs
      → q.stats.events_failed ≡ p.stats.events_failed
      → q.stats.dlq_count ≡ p.stats.dlq_count
      → result ≡ finished none
      → Ends handler round p st read q result
  unmarked :
      (bs : List BufferedEvent) (x : GoError)
      → read ≡ ok bs
      → Tries handler round bs p.config.retry_max_attempts 1 p.handled taken
      → (m.mark_processed (event_ids bs) st).1 ≡ some x
      → q.store ≡ (m.mark_processed (event_ids bs) st).0
      → q.stats.events_processed ≡ p.stats.events_processed
      → q.stats.events_failed ≡ p.stats.events_failed
      → result ≡ finished (some x)
      → Ends handler round p st read q result
  interrupted :
      (bs : List BufferedEvent) (x : GoError)
      → read ≡ ok bs
      → Tries handler round bs p.config.retry_max_attempts 1 p.handled (stopped x)
      → q.store ≡ st
      → q.stats.events_processed ≡ p.stats.events_processed
      → q.stats.events_failed ≡ p.stats.events_failed
      → result ≡ finished (some x)
      → Ends handler round p st read q result
  given_up :
      (bs : List BufferedEvent) (x : GoError)
      → read ≡ ok bs
      → Tries handler round bs p.config.retry_max_attempts 1 p.handled (used_up (some x))
      → q.store ≡ (m.mark_processed (event_ids bs) st).0
      → q.stats.events_processed ≡ p.stats.events_processed
      → q.stats.events_failed ≡ p.stats.events_failed + length bs
      → q.stats.dlq_count ≤ p.stats.dlq_count + length bs
      → result ≡ finished (some x)
      → Ends handler round p st read q result
  untried :
      (bs : List BufferedEvent)
      → p.config.retry_max_attempts ≡ 0
      → read ≡ ok bs
      → q.store ≡ (m.mark_processed (event_ids bs) st).0
      → q.stats.events_processed ≡ p.stats.events_processed
      → q.stats.events_failed ≡ p.stats.events_failed + length bs
      → result ≡ finished none
      → Ends handler round p st read q result
  crashed :
      (bs : List BufferedEvent)
      → p.config.retry_max_attempts ≡ 0
      → p.config.dlq_enabled ≡ true
      → read ≡ ok bs
      → q.store ≡ st
      → q.stats ≡ p.stats
      → result ≡ panicked
      → Ends handler round p st read q result

module _ {m : Manager} {d : DeadLetter.Manager} {H : Type 0} (handler : BatchHandler H)
    (round : Round) (p : Processor m d H) (st : m.Store) (bs : List BufferedEvent)
    (p1 : Processor m d H) (kept : Attempts (record p { store = st }) p1) where
  taken-Ends :
      Tries handler round bs p.config.retry_max_attempts 1 p.handled taken
      → Ends handler round p st
          (ok bs)
          (settle round bs (p1, taken)).0
          (settle round bs (p1, taken)).1
  unfolding settle
  taken-Ends t = elim (Option-cases (m.mark_processed (event_ids bs) st).1) [
    | inl e ↦
        delivered bs refl t e (ground (arith, kept)) (ground (arith, kept)) (ground (arith, kept))
          (ground (arith, kept)) (ground (arith, kept)) (ground (arith, kept))
    | inr (x, e) ↦
        unmarked bs x refl t e (ground (arith, kept)) (ground (arith, kept)) (ground (arith, kept))
          (ground (arith, kept))
  ]

  stopped-Ends :
      (x : GoError)
      → Tries handler round bs p.config.retry_max_attempts 1 p.handled (stopped x)
      → Ends handler round p st
          (ok bs)
          (settle round bs (p1, stopped x)).0
          (settle round bs (p1, stopped x)).1
  unfolding settle
  stopped-Ends x t =
      interrupted bs x refl t (ground (arith, kept)) (ground (arith, kept)) (ground (arith, kept))
        refl

  used_up-Ends :
      (x : GoError)
      → Tries handler round bs p.config.retry_max_attempts 1 p.handled (used_up (some x))
      → let r = settle round bs (p1, used_up (some x)) in Ends handler round p st (ok bs) r.0 r.1
  unfolding settle
  used_up-Ends x t = elim (Bool-cases (p1.config.dlq_enabled && is_some p1.letters)) [
    | inr off ↦
        given_up bs x refl t (ground (arith, kept)) (ground (arith, kept)) (ground (arith, kept))
          (ground (arith, kept)) (ground (arith, kept))
    | inl on ↦
        let (q, e) = send_to_dlq-some round x bs p1 in
        let sent = send_to_dlq-Letters round (some x) bs p1 q e in
        given_up bs x refl t (ground (arith, kept, e, sent)) (ground (arith, kept, e, sent))
          (ground (arith, kept, e, sent)) (ground (arith, kept, e, sent))
          (ground (arith, kept, e, sent))
  ]

module _ {m : Manager} {d : DeadLetter.Manager} {H : Type 0} (handler : BatchHandler H)
    (round : Round) (p : Processor m d H) where
  untried-Ends :
      (st : m.Store) (bs : List BufferedEvent)
      → p.config.retry_max_attempts ≡ 0
      → let r = settle round bs (record p { store = st }, used_up none) in
        Ends handler round p st (ok bs) r.0 r.1
  unfolding settle
  untried-Ends st bs z =
      let p0 : Processor m d H = record p { store = st } in
      elim (Bool-cases (p.config.dlq_enabled && is_some p.letters)) [
        | inr off ↦
            untried bs z refl (ground (arith, off)) (ground (arith, off)) (ground (arith, off))
              (ground (arith, off))
        | inl on ↦ elim (Option-cases (send_to_dlq round none bs p0)) [
          | inl e ↦
              crashed bs z (ground (arith, on)) refl (ground (arith, on, e)) (ground (arith, on, e))
                (ground (arith, on, e))
          | inr (q, e) ↦
              let sent = send_to_dlq-Letters round none bs p0 q e in
              untried bs z refl (ground (arith, on, e, sent)) (ground (arith, on, e, sent))
                (ground (arith, on, e, sent)) (ground (arith, on, e, sent))
        ]
      ]

  Tries-Ends :
      (st : m.Store) (bs : List BufferedEvent) (p1 : Processor m d H) (a : Attempted)
      → Attempts (record p { store = st }) p1
      → Tries handler round bs p.config.retry_max_attempts 1 p.handled a
      → let r = settle round bs (p1, a) in Ends handler round p st (ok bs) r.0 r.1
  Tries-Ends st bs p1 a kept t = elim (Tries-Tried t) [
    | inl e ↦ rw e (
        taken-Ends handler round p st bs p1 kept
          (subst (Tries handler round bs p.config.retry_max_attempts 1 p.handled) e t))
    | inr (inl (x, e)) ↦ rw e (
        stopped-Ends handler round p st bs p1 kept x
          (subst (Tries handler round bs p.config.retry_max_attempts 1 p.handled) e t))
    | inr (inr (x, e)) ↦ rw e (
        used_up-Ends handler round p st bs p1 kept x
          (subst (Tries handler round bs p.config.retry_max_attempts 1 p.handled) e t))
  ]

  process_read-Ends :
      (st : m.Store) (read : Fallible (List BufferedEvent))
      → let r = process_read handler round (record p { store = st }) read in
        Ends handler round p st read r.0 r.1
  unfolding process_read
  process_read-Ends st (err x) = unread x refl refl refl refl
  process_read-Ends st (ok []) = empty refl refl refl refl
  process_read-Ends st (ok (b ∷ bs)) = by_attempts p.config.retry_max_attempts refl
    where
      by_attempts :
          (k : ℕ)
          → p.config.retry_max_attempts ≡ k
          → let t = try_handler handler round (b ∷ bs) k 1 none (record p { store = st }) in
            let r = settle round (b ∷ bs) t in Ends handler round p st (ok (b ∷ bs)) r.0 r.1
      by_attempts zero e = unfold try_handler in untried-Ends st (b ∷ bs) e
      by_attempts (suc k) e =
          let p0 : Processor m d H = record p { store = st } in
          Tries-Ends st (b ∷ bs) (try_handler handler round (b ∷ bs) (suc k) 1 none p0).0
            (try_handler handler round (b ∷ bs) (suc k) 1 none p0).1
            (try_handler-Attempts handler round (b ∷ bs) (suc k) 1 none p0)
            (try_handler-Tries handler round (b ∷ bs) (suc k) 1 none p0 (omega arith) (omega arith))

-- A round ends in one of eight ways. Its read fails; there is nothing to do; the handler took the batch,
-- at the first attempt or behind failed ones with waits that were not interrupted, and it was marked, and
-- counted as processed, or the mark failed; the wait behind a failed attempt was interrupted, and nothing
-- is marked; the handler failed at every allowed attempt, and the batch is marked (the mark's error is
-- not seen) and counted as failed, with at most one dead letter for each event, also if none was
-- written. With no attempt allowed the batch is marked without having been tried, or, with dead letters
-- on, the round panics.
pub process_batch-Ends :
    {m : Manager} {d : DeadLetter.Manager} {H : Type 0} (handler : BatchHandler H) (round : Round)
    (p : Processor m d H)
    → let (st, read) = m.read_batch p.config.source_id p.config.batch_size p.store in
      let r = process_batch_with_retry handler round p in Ends handler round p st read r.0 r.1
unfolding process_batch_with_retry
process_batch-Ends {m = m} handler round p =
    let (st, read) = m.read_batch p.config.source_id p.config.batch_size p.store in
    process_read-Ends handler round p st read
