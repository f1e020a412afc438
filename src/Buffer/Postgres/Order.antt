-- ===== src/Buffer/Postgres/Order.antt =====
-- What `ReadBatch` promises of the order: the earliest rows, whatever the table looks like.
use Prim.Native.String.{String}
use text.Mathlib.Text.{◌==◌ as str_eq}
use mathlib.Core.List.{Perm}
use mathlib.Core.List.Perm
use philotes.Common.{
  ℕ, ◌≤◌, ◌≡◌, refl, ◌⊎◌, inl, inr, ◌&&◌, List, [], ◌∷◌, map, take, keep, is_none, leb, Bool-cases,
  Option-cases, arith,
}
use philotes.Common.Errors.{GoError, wrapped, ok, err}
use philotes.Buffer.{BufferedEvent}
use philotes.Buffer.Postgres.{Row, Db, of_row, insert_row, order_rows, is_waiting}
use philotes.Buffer.Postgres.Statements.{fault, read_batch, query_failed}
use philotes.Buffer.Postgres.Rows.{Ordered}

insert_row-perm : (r : Row) (rs : List Row) → Perm (insert_row r rs) (r ∷ rs)
unfolding insert_row
insert_row-perm r [] = Perm.refl (r ∷ [])
insert_row-perm r (s ∷ rs) = elim (Bool-cases (leb r.created_at s.created_at)) [
  | inl e ↦ rw (e, insert_row) (Perm.refl (r ∷ s ∷ rs))
  | inr e ↦ rw (e, insert_row) (Perm.trans (Perm.cons s (insert_row-perm r rs)) (Perm.swap r s rs))
]

insert_row-Ordered :
    (lo : ℕ) (r : Row) (rs : List Row)
    → lo ≤ r.created_at
    → Ordered lo rs
    → Ordered lo (insert_row r rs)
unfolding insert_row
insert_row-Ordered lo r [] h o = (h, tt)
insert_row-Ordered lo r (s ∷ rs) h o = elim (Bool-cases (leb r.created_at s.created_at)) [
  | inl e ↦ rw (e, insert_row) (h, (ground arith, o.1))
  | inr e ↦ rw (e, insert_row) (o.0, insert_row-Ordered s.created_at r rs (ground (arith, e)) o.1)
]

order_rows-perm : (rs : List Row) → Perm (order_rows rs) rs
unfolding order_rows
order_rows-perm [] = Perm.refl []
order_rows-perm (r ∷ rs) =
    Perm.trans (insert_row-perm r (order_rows rs)) (Perm.cons r (order_rows-perm rs))

order_rows-sorted : (rs : List Row) → Ordered 0 (order_rows rs)
unfolding order_rows
order_rows-sorted [] = tt
order_rows-sorted (r ∷ rs) =
    insert_row-Ordered 0 r (order_rows rs) (omega arith) (order_rows-sorted rs)

-- What a read of a source's batch may give of a table: the first `limit` in some arrangement of its
-- unprocessed rows along which the times of their creation do not fall.
pub record Earliest (source : String) (limit : ℕ) (rows : List Row) (bs : List BufferedEvent)
    : Type 0 where
  pub arranged : List Row
  pub same_rows :
      Perm arranged (keep (λ r. is_none r.processed_at && str_eq r.source_id source) rows)
  pub ordered : Ordered 0 arranged
  pub batch : bs ≡ map of_row (take limit arranged)

-- Whatever rows the table has and in whatever order, a read that does not fail gives the first `limit`
-- of the source's unprocessed rows in an order of the times of their creation (it is left open which
-- of those with one time comes first), and leaves the rows; one that fails gives an error and leaves
-- them too.
pub read_batch-Earliest :
    (source : String) (limit : ℕ) (db : Db)
    → let (db', r) = read_batch source limit db in
      (db'.rows ≡ db.rows)
      × (((bs : List BufferedEvent) × (r ≡ ok bs) × Earliest source limit db.rows bs)
          ⊎ ((x : GoError) × (r ≡ err x)))
unfolding read_batch
read_batch-Earliest source limit db = elim (Option-cases (fault db)) [
  | inr (x, f) ↦ (rw (f, read_batch), inr (wrapped query_failed x, rw (f, read_batch)))
  | inl f ↦
      let sorted = order_rows (keep (is_waiting source) db.rows) in
      (
        rw (f, read_batch),
        inl (
          map of_row (take limit sorted),
          rw (f, read_batch),
          record {
            arranged = sorted;
            same_rows = order_rows-perm (keep (is_waiting source) db.rows);
            ordered = order_rows-sorted (keep (is_waiting source) db.rows);
            batch = refl;
          },
        ),
      )
]
