-- ===== src/DeadLetter.antt =====
-- internal/cdc/deadletter/deadletter.go: events that failed, and the queue that keeps them.
mod Tests
pub mod Postgres
use Prim.Native.String.{String}
use philotes.Common.{ℕ, ◌+◌, Option, none, some}
use philotes.Common.Errors.{GoError, Fallible}
use philotes.Cdc.{Event, Operation}

pub data ErrorType : Type 0 where
  transient permanent validation schema unknown : ErrorType

-- `event_data` is JSON, and `error_message` the error whose message it is.
pub record FailedEvent : Type 0 where
  pub id : ℕ
  pub original_event_id : ℕ
  pub source_id : String
  pub schema_name : String
  pub table_name : String
  pub operation : Operation
  pub event_data : String
  pub error_message : GoError
  pub error_type : ErrorType
  pub retry_count : ℕ
  pub created_at : ℕ
  pub last_retry_at : Option ℕ
  pub expires_at : Option ℕ

-- What `encoding/json` does with an event; `none` is a failure.
pub record Json : Type 0 where
  pub marshal : Event → Option String
  pub unmarshal : String → Option Event

-- The interface `Manager`, over the state that an implementation keeps.
pub record Manager : Type 1 where
  pub Store : Type 0
  pub write : FailedEvent → Store → Store × Option GoError
  pub cleanup : Store → Store × Fallible ℕ

unfoldable pub from_cdc_event : Json → Event → GoError → ErrorType → ℕ → ℕ → Option FailedEvent
from_cdc_event json e x error_type retention now = elim (json.marshal e) [
  | none ↦ none
  | some text ↦ some (record {
    id = 0;
    original_event_id = 0;
    source_id = e.id;
    schema_name = e.schema;
    table_name = e.table;
    operation = e.operation;
    event_data = text;
    error_message = x;
    error_type = error_type;
    retry_count = 0;
    created_at = now;
    last_retry_at = none;
    expires_at = some (now + retention);
  })
]

unfoldable pub to_event : Json → FailedEvent → Option Event
to_event json f = json.unmarshal f.event_data
