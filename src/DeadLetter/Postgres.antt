-- ===== src/DeadLetter/Postgres.antt =====
-- internal/cdc/deadletter/postgres.go: the dead letters as a table of PostgreSQL,
-- `philotes.dead_letter_events`. A statement is one step on the table; it fails as the list `faults` says,
-- and then changes nothing. `now` is the program's clock, and `jsonb` the text that PostgreSQL gives back of
-- a JSON text that was stored in a column of type JSONB.
pub mod Recovery
pub mod Statistics
use Prim.Native.String.{String}
use text.Mathlib.Text.{◌==◌ as str_eq}
use philotes.Common.{
  ℕ, zero, suc, ◌+◌, ◌-◌, Bool, true, false, not, ◌&&◌, Option, none, some, List, [], ◌∷◌, ◌++◌,
  map, length, take, keep, ltb, ◌==◌, if◌then◌else◌,
}
use philotes.Common.Errors.{GoError, plain, wrapped, Fallible, ok, err, first_fault, other_faults}
use philotes.Cdc.{Operation}
use philotes.DeadLetter.{ErrorType, unknown, FailedEvent, Manager}

-- A row, with its nullable columns.
pub record LetterRow : Type 0 where
  pub id : ℕ
  pub original_event_id : Option ℕ
  pub source_id : String
  pub schema_name : String
  pub table_name : String
  pub operation : Operation
  pub event_data : String
  pub error_message : GoError
  pub error_type : Option ErrorType
  pub retry_count : ℕ
  pub created_at : ℕ
  pub last_retry_at : Option ℕ
  pub expires_at : Option ℕ

pub record LetterTable : Type 0 where
  pub rows : List LetterRow
  pub next_id : ℕ
  pub now : ℕ
  pub faults : List (Option GoError)
  pub jsonb : String → String

-- The numbers by which the errors are known.
abbrev pub insert_failed : ℕ
insert_failed = 90

abbrev pub query_failed : ℕ
query_failed = 91

abbrev pub retry_failed : ℕ
retry_failed = 92

abbrev pub delete_failed : ℕ
delete_failed = 93

abbrev pub cleanup_failed : ℕ
cleanup_failed = 94

abbrev pub count_failed : ℕ
count_failed = 95

abbrev pub event_not_found : ℕ
event_not_found = 96

abbrev pub fault : LetterTable → Option GoError
fault db = first_fault db.faults

abbrev pub past_fault : LetterTable → LetterTable
past_fault db = record db { faults = other_faults db.faults }

-- An ID of 0 says that there is no original event. IDs are never negative here.
abbrev pub nullable_int64 : ℕ → Option ℕ
nullable_int64 zero = none
nullable_int64 (suc n) = some (suc n)

abbrev pub to_letter_row : (String → String) → ℕ → FailedEvent → LetterRow
to_letter_row jsonb id e = record {
  id = id;
  original_event_id = nullable_int64 e.original_event_id;
  source_id = e.source_id;
  schema_name = e.schema_name;
  table_name = e.table_name;
  operation = e.operation;
  event_data = jsonb e.event_data;
  error_message = e.error_message;
  error_type = some e.error_type;
  retry_count = e.retry_count;
  created_at = e.created_at;
  last_retry_at = none;
  expires_at = e.expires_at;
}

-- What is scanned from a row. A type that is NULL is the empty text in the program.
abbrev pub of_letter_row : LetterRow → FailedEvent
of_letter_row r = record {
  id = r.id;
  original_event_id = elim (r.original_event_id) [ none ↦ 0 | some i ↦ i ];
  source_id = r.source_id;
  schema_name = r.schema_name;
  table_name = r.table_name;
  operation = r.operation;
  event_data = r.event_data;
  error_message = r.error_message;
  error_type = elim (r.error_type) [ none ↦ unknown | some t ↦ t ];
  retry_count = r.retry_count;
  created_at = r.created_at;
  last_retry_at = r.last_retry_at;
  expires_at = r.expires_at;
}

-- `ORDER BY created_at ASC`. Rows of one time are read in the order in which they stand.
unfoldable pub insert_row : LetterRow → List LetterRow → List LetterRow
insert_row r [] = r ∷ []
insert_row r (s ∷ ss) =
    let rest = insert_row r ss in if ltb s.created_at r.created_at then s ∷ rest else r ∷ s ∷ ss

unfoldable pub order_rows : List LetterRow → List LetterRow
unfolding insert_row
order_rows [] = []
order_rows (r ∷ rs) = insert_row r (order_rows rs)

unfoldable pub write : FailedEvent → LetterTable → LetterTable × Option GoError
write e db = elim (fault db) [
  | some x ↦ (past_fault db, some (wrapped insert_failed x))
  | none ↦ (
    record (past_fault db) {
      rows = db.rows ++ (to_letter_row db.jsonb db.next_id e ∷ []);
      next_id = db.next_id + 1;
    },
    none,
  )
]

-- The rows of a query, in order and up to a limit.
unfoldable pub query_events :
    (LetterRow → Bool) → ℕ → LetterTable → LetterTable × Fallible (List FailedEvent)
unfolding order_rows
query_events p limit db = elim (fault db) [
  | some x ↦ (past_fault db, err (wrapped query_failed x))
  | none ↦ (past_fault db, ok (map of_letter_row (take limit (order_rows (keep p db.rows)))))
]

abbrev pub read : ℕ → LetterTable → LetterTable × Fallible (List FailedEvent)
read limit db = query_events (λ r. true) limit db

abbrev pub read_by_source : String → ℕ → LetterTable → LetterTable × Fallible (List FailedEvent)
read_by_source source limit db = query_events (λ r. str_eq r.source_id source) limit db

abbrev pub read_by_table :
    String → String → ℕ → LetterTable → LetterTable × Fallible (List FailedEvent)
read_by_table schema table limit db =
    query_events (λ r. str_eq r.schema_name schema && str_eq r.table_name table) limit db

abbrev has_id : ℕ → LetterRow → Bool
has_id id r = r.id == id

-- How many rows have an ID.
abbrev pub affected : ℕ → List LetterRow → ℕ
affected id rows = length (keep (has_id id) rows)

abbrev retried : ℕ → ℕ → LetterRow → LetterRow
retried now id r =
    if has_id id r
    then record r { retry_count = r.retry_count + 1; last_retry_at = some now }
    else r

-- No row that is affected is an error.
abbrev found : ℕ → Option GoError
found zero = some (plain event_not_found)
found (suc n) = none

unfoldable pub mark_retried : ℕ → LetterTable → LetterTable × Option GoError
mark_retried id db = elim (fault db) [
  | some x ↦ (past_fault db, some (wrapped retry_failed x))
  | none ↦ (
    record (past_fault db) { rows = map (retried db.now id) db.rows },
    found (affected id db.rows),
  )
]

unfoldable pub delete : ℕ → LetterTable → LetterTable × Option GoError
delete id db = elim (fault db) [
  | some x ↦ (past_fault db, some (wrapped delete_failed x))
  | none ↦ (
    record (past_fault db) { rows = keep (λ r. not (has_id id r)) db.rows },
    found (affected id db.rows),
  )
]

abbrev pub has_expired : ℕ → LetterRow → Bool
has_expired now r = elim (r.expires_at) [ none ↦ false | some t ↦ ltb t now ]

-- With the number of the rows that were deleted.
unfoldable pub cleanup : LetterTable → LetterTable × Fallible ℕ
cleanup db = elim (fault db) [
  | some x ↦ (past_fault db, err (wrapped cleanup_failed x))
  | none ↦ (
    record (past_fault db) { rows = keep (λ r. not (has_expired db.now r)) db.rows },
    ok (length (keep (has_expired db.now) db.rows)),
  )
]

unfoldable pub count : LetterTable → LetterTable × Fallible ℕ
count db = elim (fault db) [
  | some x ↦ (past_fault db, err (wrapped count_failed x))
  | none ↦ (past_fault db, ok (length db.rows))
]

abbrev pub postgres : Manager
postgres = record { Store = LetterTable; write = write; cleanup = cleanup }
