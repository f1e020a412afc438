-- ===== src/Iceberg/Writer/Delivery.antt =====
-- The batch processor over the buffer in PostgreSQL, with the Iceberg writer as its handler
-- (internal/iceberg/writer/batch_handler.go).
use Prim.Native.String.{String}
use mathlib.Core.List.{Perm}
use mathlib.Core.List.Perm
use philotes.Common.{
  ◌<◌, ◌≡◌, refl, sym, ap, subst, inl, inr, none, some, List, [], ◌∷◌, take, drop, map, arith,
}
use philotes.Common.Errors.{GoError, ok}
use philotes.Buffer.{BufferedEvent}
use philotes.DeadLetter
use philotes.Buffer.Postgres.Statements.{read_batch, postgres}
use philotes.Buffer.Postgres.Queue.{pending, IsTable, read_batch-pending}
use philotes.Buffer.Batch.{Round, Processor}
use philotes.Buffer.Batch.Process.{finished, process_read, process_batch_with_retry}
use philotes.Buffer.Batch.Accepted.{Accepted, process_read-Accepted}
use philotes.Buffer.Batch.Delivery.{finished-drops_batch}
use philotes.Iceberg.Writer.{
  IcebergServices, IcebergConfig, IcebergWriter, WriteEnd, written, index_panics, write_failed,
  error_of_end, batch_handler, write_events, group_events, group_events_by_table,
}
use philotes.Iceberg.Writer.Commits.{AllCommitted, write_events-commits}

no_error-written : (end : WriteEnd) → error_of_end end ≡ none → end ≡ written
no_error-written written h = refl
no_error-written index_panics h = absurd (ground (arith, h))
no_error-written (write_failed x) h = absurd (ground (arith, h))

no_good : (x : GoError) → finished (some x) ≡ finished none → ⊥
no_good x h = ground (arith, h)

module _ {d : DeadLetter.Manager} {W : Type 0} (s : IcebergServices W) (cfg : IcebergConfig)
    (order : List (String × List BufferedEvent) → List (String × List BufferedEvent))
    (law : (groups : List (String × List BufferedEvent)) → Perm (order groups) groups)
    (round : Round) where
  -- The events are in files that were committed, up to the state that a processor has.
  abbrev pub Stored : List BufferedEvent → Processor postgres d (IcebergWriter × W) → Type 0
  Stored es q =
      (st : IcebergWriter) × (w : W) × AllCommitted s cfg (order (group_events_by_table es)) st w
        q.handled.0 q.handled.1

  Accepted-Stored :
      (es : List BufferedEvent) (q : Processor postgres d (IcebergWriter × W))
      → Accepted (batch_handler s cfg order) round es q
      → Stored es q
  Accepted-Stored es q ((st, w), e) =
      let r = write_events s cfg order es st w in
      let good : r.0 ≡ written = no_error-written r.0 (ap (λ u. u.1) e) in
      let whole : r ≡ (r.0, q.handled.0, q.handled.1) = ap (λ u. (r.0, u.0.0, u.0.1)) e in
      (
        st,
        w,
        (write_events-commits s cfg order es r.0 st q.handled.0 w q.handled.1 law whole).1 good,
      )

  process_read-Stored :
      (es : List BufferedEvent) (p : Processor postgres d (IcebergWriter × W))
      → 0 < p.config.retry_max_attempts
      → (process_read (batch_handler s cfg order) round p (ok es)).1 ≡ finished none
      → Stored es (process_read (batch_handler s cfg order) round p (ok es)).0
  unfolding process_read AllCommitted group_events
  process_read-Stored [] p allowed h = (
    p.handled.0,
    p.handled.1,
    subst (λ gs. AllCommitted s cfg gs p.handled.0 p.handled.1 p.handled.0 p.handled.1)
        (sym (Perm.eq-nil (law []))) (refl, refl),
  )
  process_read-Stored (b ∷ bs) p allowed h =
      Accepted-Stored (b ∷ bs) (process_read (batch_handler s cfg order) round p (ok (b ∷ bs))).0
        (process_read-Accepted (batch_handler s cfg order) round b bs p allowed h)

  -- On a well-formed table, if an attempt is allowed, and in whichever order the groups of a batch are read: a
  -- round that returns no error has committed a file with just the events of each table among the first
  -- `batch_size` events of its source's queue, and has taken these events, and no others, from the queue.
  pub finished-Stored :
      (p : Processor postgres d (IcebergWriter × W))
      → IsTable p.store
      → 0 < p.config.retry_max_attempts
      → let (q, result) = process_batch_with_retry (batch_handler s cfg order) round p in
        let waiting = pending p.config.source_id p.store in
        result ≡ finished none
        → (pending p.config.source_id q.store ≡ drop p.config.batch_size waiting)
          × ((bs : List BufferedEvent) × (map (λ b. b.event) bs ≡ take p.config.batch_size waiting)
              × Stored bs q)
  unfolding process_batch_with_retry process_read
  finished-Stored p t allowed h =
      let (st, read) = read_batch p.config.source_id p.config.batch_size p.store in
      let (same, what) = read_batch-pending p.config.source_id p.config.batch_size p.store t in
      let run = process_read (batch_handler s cfg order) round (record p { store = st }) in
      (
        finished-drops_batch (batch_handler s cfg order) round p t allowed h,
        elim what [
          | inl (bs, read', are) ↦ (
            bs,
            are,
            subst (λ r. Stored bs (run r).0) (sym read')
                (process_read-Stored bs (record p { store = st }) allowed
                  (subst (λ r. (run r).1 ≡ finished none) read' h)),
          )
          | inr (x, read') ↦ absurd (no_good x (subst (λ r. (run r).1 ≡ finished none) read' h))
        ],
      )
