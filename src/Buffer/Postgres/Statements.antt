-- ===== src/Buffer/Postgres/Statements.antt =====
-- The operations of the buffer, each a statement on the table.
use Prim.Native.String.{String}
use philotes.Common.{
  ℕ, ◌+◌, ◌-◌, Option, none, some, List, [], ◌∷◌, ◌++◌, map, length, take, keep, not,
}
use philotes.Common.Errors.{GoError, wrapped, Fallible, ok, err}
use philotes.Cdc.{Event}
use philotes.Buffer.{BufferedEvent, Stats, Manager}
use philotes.Buffer.Postgres.{
  Db, to_rows, of_row, order_rows, is_waiting, stamp_rows, is_expired, is_unprocessed, oldest,
}

-- The numbers by which the wrapped errors are known.
abbrev pub write_failed : ℕ
write_failed = 10

abbrev pub query_failed : ℕ
query_failed = 11

abbrev pub mark_failed : ℕ
mark_failed = 12

abbrev pub cleanup_failed : ℕ
cleanup_failed = 13

abbrev pub stats_failed : ℕ
stats_failed = 14

-- Each statement takes the head of the faults.
abbrev pub fault : Db → Option GoError
fault db = elim db.faults [ [] ↦ none | f ∷ fs ↦ f ]

abbrev pub past_fault : Db → Db
past_fault db = record db { faults = elim db.faults [ [] ↦ [] | f ∷ fs ↦ fs ] }

unfoldable pub write : List Event → Db → Db × Option GoError
unfolding to_rows
write [] db = (db, none)
write (e ∷ es) db = elim (fault db) [
  | some x ↦ (past_fault db, some (wrapped write_failed x))
  | none ↦ (
    record (past_fault db) {
      rows = db.rows ++ to_rows db.next_id db.now (e ∷ es);
      next_id = db.next_id + length (e ∷ es);
    },
    none,
  )
]

unfoldable pub read_batch : String → ℕ → Db → Db × Fallible (List BufferedEvent)
unfolding of_row order_rows
read_batch source limit db = elim (fault db) [
  | some x ↦ (past_fault db, err (wrapped query_failed x))
  | none ↦
      (past_fault db, ok (map of_row (take limit (order_rows (keep (is_waiting source) db.rows)))))
]

unfoldable pub mark_processed : List ℕ → Db → Db × Option GoError
unfolding stamp_rows
mark_processed [] db = (db, none)
mark_processed (i ∷ ids) db = elim (fault db) [
  | some x ↦ (past_fault db, some (wrapped mark_failed x))
  | none ↦ (record (past_fault db) { rows = stamp_rows db.now (i ∷ ids) db.rows }, none)
]

unfoldable pub cleanup : ℕ → Db → Db × Fallible ℕ
cleanup retention db = elim (fault db) [
  | some x ↦ (past_fault db, err (wrapped cleanup_failed x))
  | none ↦
      let cutoff = db.now - retention in
      (
        record (past_fault db) { rows = keep (λ r. not (is_expired cutoff r)) db.rows },
        ok (length (keep (is_expired cutoff) db.rows)),
      )
]

unfoldable pub stats : Db → Db × Fallible Stats
unfolding oldest
stats db = elim (fault db) [
  | some x ↦ (past_fault db, err (wrapped stats_failed x))
  | none ↦
      let first = oldest (keep is_unprocessed db.rows) in
      (
        past_fault db,
        ok (record {
          total_events = length db.rows;
          unprocessed_events = length (keep is_unprocessed db.rows);
          oldest_unprocessed = first;
          lag = elim first [ none ↦ 0 | some t ↦ db.now - t ];
        }),
      )
]

-- The table as a buffer.
abbrev pub postgres : Manager
postgres = record {
  Store = Db;
  write = write;
  read_batch = read_batch;
  mark_processed = mark_processed;
  cleanup = cleanup;
  stats = stats;
}
