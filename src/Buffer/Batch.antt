-- ===== src/Buffer/Batch.antt =====
-- internal/cdc/buffer/batch.go: the processor that hands batches of the buffer to a handler.
-- Its surroundings are interfaces: the buffer, the dead-letter queue and the handler, which keeps a
-- state of its own.
pub mod Process
pub mod Accounts
pub mod Tries
pub mod Rounds
pub mod Accepted
pub mod Delivery
pub mod Lifecycle
use Prim.Native.String.{String}
use philotes.Common.{ℕ, Bool, Option, List}
use philotes.Common.Errors.{GoError}
use philotes.Buffer.{BufferedEvent, Manager}
use philotes.DeadLetter
use philotes.DeadLetter.{Json}

pub record BatchConfig : Type 0 where
  pub source_id : String
  pub batch_size : ℕ
  pub flush_interval : ℕ
  pub retention : ℕ
  pub cleanup_interval : ℕ
  pub retry_max_attempts : ℕ
  pub dlq_enabled : Bool
  pub dlq_retention : ℕ

pub record BatchStats : Type 0 where
  pub batches_processed : ℕ
  pub events_processed : ℕ
  pub events_failed : ℕ
  pub retry_count : ℕ
  pub dlq_count : ℕ

-- What a round meets outside: `interrupted` is the context's error, if it is done before the wait
-- behind an attempt is over; `now` is the time of its dead letters.
pub record Round : Type 0 where
  pub interrupted : ℕ → Option GoError
  pub json : Json
  pub now : ℕ

-- The handler: its state behind a call, and the error that it returned.
abbrev pub BatchHandler : Type 0 → Type 0
BatchHandler H = List BufferedEvent → H → H × Option GoError

-- `letters` is none if no dead-letter queue was set; `stop_closed` says that `stopCh` is closed.
pub record Processor (m : Manager) (d : DeadLetter.Manager) (H : Type 0) : Type 0 where
  pub config : BatchConfig
  pub store : m.Store
  pub letters : Option (d.Store)
  pub handled : H
  pub stats : BatchStats
  pub running : Bool
  pub stop_closed : Bool
