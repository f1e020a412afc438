-- ===== src/Cdc/Checkpoints.antt =====
-- internal/cdc/checkpoint/postgres.go: the checkpoints as a table of PostgreSQL, `philotes.cdc_checkpoints`,
-- with one row for each source. A statement is one step on the table; it fails as the list `faults` says,
-- and then changes nothing. A time of 0 is Go's zero time. The metadata are taken
-- to be such as JSON gives back, so that neither direction fails (in the program a number comes back as a
-- float64), and times such as the column keeps; the column of JSON is NULL if there is none.
pub mod Saved
pub mod Positions
use Prim.Native.String.{String}
use philotes.Common.{ℕ, Option, none, some, List, [], ◌∷◌, ◌==◌, if◌then◌else◌}
use philotes.Common.Errors.{GoError, wrapped, Fallible, ok, err, first_fault, other_faults}
use philotes.Common.Maps.{lookup, put, remove}
use philotes.Cdc.{Columns, Checkpoint, CheckpointManager}

pub record CheckpointRow : Type 0 where
  pub lsn : String
  pub transaction_id : Option ℕ
  pub committed_at : ℕ
  pub metadata : Option Columns

-- `now` is the program's clock. The rows are found by their source.
pub record CheckpointTable : Type 0 where
  pub rows : List (String × CheckpointRow)
  pub now : ℕ
  pub faults : List (Option GoError)

-- The numbers by which the wrapped errors are known.
abbrev pub save_failed : ℕ
save_failed = 80

abbrev pub load_failed : ℕ
load_failed = 81

abbrev pub delete_failed : ℕ
delete_failed = 82

abbrev pub fault : CheckpointTable → Option GoError
fault db = first_fault db.faults

abbrev pub past_fault : CheckpointTable → CheckpointTable
past_fault db = record db { faults = other_faults db.faults }

-- A nil map becomes NULL.
abbrev pub marshal_metadata : Columns → Option Columns
marshal_metadata [] = none
marshal_metadata (c ∷ cs) = some (c ∷ cs)

abbrev pub row_of : ℕ → Checkpoint → CheckpointRow
row_of now c = record {
  lsn = c.lsn;
  transaction_id = some c.transaction_id;
  committed_at = if c.committed_at == 0 then now else c.committed_at;
  metadata = marshal_metadata c.metadata;
}

-- What is scanned from a row.
abbrev pub scan : String → CheckpointRow → Checkpoint
scan source r = record {
  source_id = source;
  lsn = r.lsn;
  transaction_id = elim (r.transaction_id) [ none ↦ 0 | some t ↦ t ];
  committed_at = r.committed_at;
  metadata = elim (r.metadata) [ none ↦ [] | some m ↦ m ];
}

-- The row of the source is put in, or updated.
unfoldable pub save : Checkpoint → CheckpointTable → CheckpointTable × Option GoError
save c db = elim (fault db) [
  | some x ↦ (past_fault db, some (wrapped save_failed x))
  | none ↦ (record (past_fault db) { rows = put c.source_id (row_of db.now c) db.rows }, none)
]

-- No row is no error.
unfoldable pub load : String → CheckpointTable → CheckpointTable × Fallible (Option Checkpoint)
load source db = elim (fault db) [
  | some x ↦ (past_fault db, err (wrapped load_failed x))
  | none ↦ (
    past_fault db,
    ok (elim (lookup source db.rows) [ none ↦ none | some r ↦ some (scan source r) ]),
  )
]

unfoldable pub delete : String → CheckpointTable → CheckpointTable × Option GoError
delete source db = elim (fault db) [
  | some x ↦ (past_fault db, some (wrapped delete_failed x))
  | none ↦ (record (past_fault db) { rows = remove source db.rows }, none)
]

abbrev pub postgres : CheckpointManager
postgres = record { Store = CheckpointTable; save = save; load = load }
