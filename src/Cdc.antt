-- ===== src/Cdc.antt =====
-- internal/cdc/types.go and checkpoint/checkpoint.go: the events and checkpoints of change capture.
mod Tests
pub mod Checkpoints
use Prim.Native.String.{String}
use philotes.Common.{ℕ, Option, List}
use philotes.Common.Errors.{GoError, Fallible}

-- `Operation` is a string: the four that are known, and any other action.
pub data Operation : Type 0 where
  insert update delete truncate : Operation
  other : String → Operation

-- A value of a column, of the type `any`, is known by a number: it is handed on, and all that is ever asked
-- of it is its dynamic type, when the schema of a table is built.
abbrev pub Value : Type 0
Value = ℕ

-- A map from names to values.
abbrev pub Columns : Type 0
Columns = List (String × Value)

pub record Event : Type 0 where
  pub id : String
  pub lsn : String
  pub transaction_id : ℕ
  pub timestamp : ℕ
  pub schema : String
  pub table : String
  pub operation : Operation
  pub before : Columns
  pub after : Columns
  pub key_columns : List String
  pub metadata : Columns

pub record Checkpoint : Type 0 where
  pub source_id : String
  pub lsn : String
  pub transaction_id : ℕ
  pub committed_at : ℕ
  pub metadata : Columns

-- The interface `checkpoint.Manager`, over the state that an implementation keeps.
pub record CheckpointManager : Type 1 where
  pub Store : Type 0
  pub save : Checkpoint → Store → Store × Option GoError
  pub load : String → Store → Store × Fallible (Option Checkpoint)
