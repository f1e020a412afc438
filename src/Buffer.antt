-- ===== src/Buffer.antt =====
-- internal/cdc/buffer/buffer.go: what a buffer of events does, as an interface.
mod Tests
pub mod Postgres
pub mod Batch
use Prim.Native.String.{String}
use philotes.Common.{ℕ, Option, List}
use philotes.Common.Errors.{GoError, Fallible}
use philotes.Cdc.{Event}

pub record BufferedEvent : Type 0 where
  pub id : ℕ
  pub event : Event
  pub created_at : ℕ
  pub processed_at : Option ℕ

pub record Stats : Type 0 where
  pub total_events : ℕ
  pub unprocessed_events : ℕ
  pub oldest_unprocessed : Option ℕ
  pub lag : ℕ

-- The interface `Manager`, over the state that an implementation keeps.
pub record Manager : Type 1 where
  pub Store : Type 0
  pub write : List Event → Store → Store × Option GoError
  pub read_batch : String → ℕ → Store → Store × Fallible (List BufferedEvent)
  pub mark_processed : List ℕ → Store → Store × Option GoError
  pub cleanup : ℕ → Store → Store × Fallible ℕ
  pub stats : Store → Store × Fallible Stats
