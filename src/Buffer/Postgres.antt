-- ===== src/Buffer/Postgres.antt =====
-- internal/cdc/buffer/postgres.go: the buffer as a table of PostgreSQL, `philotes.cdc_events`.
-- A statement is one step on the table; it fails as the list `faults` says, and then changes nothing.
-- Columns and metadata are taken to be such as JSON gives back (in the program a number comes back as a
-- float64). `now` is the database's clock and, for `Cleanup` and `Stats`, the program's.
pub mod Statements
pub mod Rows
pub mod Order
pub mod Queue
pub mod Table
use Prim.Native.String.{String}
use text.Mathlib.Text.{◌==◌ as str_eq}
use philotes.Common.{
  ℕ, suc, ◌+◌, ◌-◌, Bool, true, false, ◌&&◌, Option, none, some, List, [], ◌∷◌, ◌++◌, map, length,
  take, keep, elem, is_none, is_some, ltb, leb, not, if◌then◌else◌,
}
use philotes.Common.Errors.{GoError, wrapped, Fallible, ok, err}
use philotes.Cdc.{Event, Operation, Columns}
use philotes.Buffer.{BufferedEvent, Stats, Manager}

-- A row; a nullable column of JSON is an option.
pub record Row : Type 0 where
  pub id : ℕ
  pub source_id : String
  pub schema_name : String
  pub table_name : String
  pub operation : Operation
  pub lsn : String
  pub transaction_id : ℕ
  pub key_columns : Option (List String)
  pub before_data : Option Columns
  pub after_data : Option Columns
  pub event_time : ℕ
  pub metadata : Option Columns
  pub created_at : ℕ
  pub processed_at : Option ℕ

pub record Db : Type 0 where
  pub rows : List Row
  pub next_id : ℕ
  pub now : ℕ
  pub faults : List (Option GoError)

-- Empty slices and maps become NULL.
unfoldable pub json_marshal_nullable {ℓ} : {A : Type ℓ} → List A → Option (List A)
json_marshal_nullable [] = none
json_marshal_nullable (x ∷ xs) = some (x ∷ xs)

unfoldable pub json_unmarshal_nullable {ℓ} : {A : Type ℓ} → Option (List A) → List A
json_unmarshal_nullable none = []
json_unmarshal_nullable (some xs) = xs

-- The values that the INSERT takes from an event: the event's ID is the source's.
unfoldable pub to_row : ℕ → ℕ → Event → Row
unfolding json_marshal_nullable
to_row id now e = record {
  id = id;
  source_id = e.id;
  schema_name = e.schema;
  table_name = e.table;
  operation = e.operation;
  lsn = e.lsn;
  transaction_id = e.transaction_id;
  key_columns = json_marshal_nullable e.key_columns;
  before_data = json_marshal_nullable e.before;
  after_data = json_marshal_nullable e.after;
  event_time = e.timestamp;
  metadata = json_marshal_nullable e.metadata;
  created_at = now;
  processed_at = none;
}

-- What the scan of a row makes of it.
unfoldable pub of_row : Row → BufferedEvent
unfolding json_unmarshal_nullable
of_row r = record {
  id = r.id;
  event = record {
    id = r.source_id;
    lsn = r.lsn;
    transaction_id = r.transaction_id;
    timestamp = r.event_time;
    schema = r.schema_name;
    table = r.table_name;
    operation = r.operation;
    before = json_unmarshal_nullable r.before_data;
    after = json_unmarshal_nullable r.after_data;
    key_columns = json_unmarshal_nullable r.key_columns;
    metadata = json_unmarshal_nullable r.metadata;
  };
  created_at = r.created_at;
  processed_at = r.processed_at;
}

-- The rows of a write, numbered from the sequence of the table.
unfoldable pub to_rows : ℕ → ℕ → List Event → List Row
to_rows id now [] = []
to_rows id now (e ∷ es) = to_row id now e ∷ to_rows (suc id) now es

-- ORDER BY created_at ASC. Rows of one time keep the order in which they stand in the table, which
-- PostgreSQL leaves open: Order has what holds in any order of theirs.
insert_row : Row → List Row → List Row
insert_row r [] = r ∷ []
insert_row r (s ∷ rs) =
    let rest = insert_row r rs in if leb r.created_at s.created_at then r ∷ s ∷ rs else s ∷ rest

unfoldable pub order_rows : List Row → List Row
unfolding insert_row
order_rows [] = []
order_rows (r ∷ rs) = insert_row r (order_rows rs)

-- WHERE processed_at IS NULL AND source_id = $1
abbrev pub is_waiting : String → Row → Bool
is_waiting source r = is_none r.processed_at && str_eq r.source_id source

-- UPDATE … SET processed_at = NOW() WHERE id = ANY($1)
unfoldable pub stamp_rows : ℕ → List ℕ → List Row → List Row
stamp_rows now ids [] = []
stamp_rows now ids (r ∷ rs) =
    (if elem r.id ids then record r { processed_at = some now } else r) ∷ stamp_rows now ids rs

-- processed_at IS NOT NULL AND processed_at < $1
abbrev pub is_expired : ℕ → Row → Bool
is_expired cutoff r = elim r.processed_at [ none ↦ false | some t ↦ ltb t cutoff ]

abbrev pub is_unprocessed : Row → Bool
is_unprocessed r = is_none r.processed_at

-- MIN(created_at)
pub oldest : List Row → Option ℕ
oldest [] = none
oldest (r ∷ rs) = elim (oldest rs) [
  | none ↦ some r.created_at
  | some t ↦ some (if leb r.created_at t then r.created_at else t)
]
