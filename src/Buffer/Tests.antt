-- ===== src/Buffer/Tests.antt =====
-- Runs of the buffer and of its processor, and each theorem about them at a concrete input.
use Prim.Native.String.{String}
use text.Mathlib.Text.{◌==◌ as str_eq}
use philotes.Common.{
  ℕ, ◌+◌, ◌≡◌, refl, ◌⊎◌, true, false, none, some, List, [], ◌∷◌, ◌++◌, map, drop, keep, arith,
}
use philotes.Common.Errors.{GoError, plain, ok, err}
use philotes.Cdc.{Event, insert}
use philotes.DeadLetter
use philotes.DeadLetter.{FailedEvent, Json}
use philotes.Buffer.{BufferedEvent}
use philotes.Buffer.Postgres.{Db, to_row, of_row}
use philotes.Buffer.Postgres.Rows.{of_row-to_row}
use philotes.Buffer.Postgres.Statements.{write, read_batch, mark_processed, cleanup, postgres}
use philotes.Buffer.Postgres.Queue.{
  pending, IsTable, pending-write, pending-mark_batch, pending-cleanup,
}
use philotes.Buffer.Postgres.Order.{Earliest, read_batch-Earliest}
use philotes.Buffer.Postgres.Table.{Call, writes, passes, apply_all, empty_table, history-IsTable}
use philotes.Buffer.Batch.{BatchConfig, Round, BatchHandler, Processor}
use philotes.Buffer.Batch.Process.{finished, try_handler, send_to_dlq, process_batch_with_retry}
use philotes.Buffer.Batch.Rounds.{Ends, process_batch-Ends}
use philotes.Buffer.Batch.Delivery.{Took, round-Took, finished-drops_batch}
use philotes.Buffer.Batch.Lifecycle.{start, stop, loops_live, restart_panics}

abbrev arrival : String → String → Event
arrival id at = record {
  id = id;
  lsn = at;
  transaction_id = 1;
  timestamp = 5;
  schema = "public";
  table = "users";
  operation = insert;
  before = [];
  after = ("id", 1) ∷ [];
  key_columns = "id" ∷ [];
  metadata = [];
}

of_row-to_row_run :
    of_row (to_row 3 9 (arrival "s" "0/1"))
    ≡ record { id = 3; event = arrival "s" "0/1"; created_at = 9; processed_at = none }
of_row-to_row_run = of_row-to_row 3 9 (arrival "s" "0/1")

abbrev history : List Call
history =
    writes (arrival "s" "0/1" ∷ arrival "t" "0/2" ∷ [])
    ∷ passes 10 (some (plain 1) ∷ [])
    ∷ writes (arrival "s" "0/3" ∷ [])
    ∷ writes (arrival "s" "0/4" ∷ arrival "s" "0/5" ∷ [])
    ∷ []

abbrev table : Db
table = apply_all empty_table history

table-IsTable : IsTable table
table-IsTable = history-IsTable history

-- The second write failed, and its event is not there.
table_pending : pending "s" table ≡ arrival "s" "0/1" ∷ arrival "s" "0/4" ∷ arrival "s" "0/5" ∷ []
unfolding write to_row of_row
table_pending = refl

write_is_pending :
    let (db, r) = write (arrival "s" "0/6" ∷ arrival "u" "0/7" ∷ []) table in
    ((r ≡ none)
      × (pending "s" db
          ≡ pending "s" table
            ++ keep (λ e. str_eq e.id "s") (arrival "s" "0/6" ∷ arrival "u" "0/7" ∷ [])))
    ⊎ ((x : GoError) × (r ≡ some x) × (pending "s" db ≡ pending "s" table))
write_is_pending = pending-write "s" (arrival "s" "0/6" ∷ arrival "u" "0/7" ∷ []) table

-- A table whose rows do not stand in the order of their times.
abbrev shuffled : Db
shuffled = record {
  rows = to_row 7 30 (arrival "s" "0/9") ∷ to_row 5 10 (arrival "s" "0/8") ∷ [];
  next_id = 8;
  now = 40;
  faults = [];
}

read_batch-Earliest_example :
    let (db, r) = read_batch "s" 1 shuffled in
    (db.rows ≡ shuffled.rows)
    × (((bs : List BufferedEvent) × (r ≡ ok bs) × Earliest "s" 1 shuffled.rows bs)
        ⊎ ((x : GoError) × (r ≡ err x)))
read_batch-Earliest_example = read_batch-Earliest "s" 1 shuffled

shuffled_read :
    (read_batch "s" 1 shuffled).1
    ≡ ok (record { id = 5; event = arrival "s" "0/8"; created_at = 10; processed_at = none } ∷ [])
unfolding read_batch to_row of_row
shuffled_read = refl

abbrev first_two : List BufferedEvent
first_two =
    record { id = 1; event = arrival "s" "0/1"; created_at = 0; processed_at = none }
    ∷ record { id = 3; event = arrival "s" "0/4"; created_at = 10; processed_at = none }
    ∷ []

first_two_read : read_batch "s" 2 table ≡ (table, ok first_two)
unfolding read_batch write to_row
first_two_read = refl

pending-mark_batch_example :
    let (db, r) = mark_processed (map (λ b. b.id) first_two) table in
    ((r ≡ none) × (pending "s" db ≡ drop 2 (pending "s" table)))
    ⊎ ((x : GoError) × (r ≡ some x) × (pending "s" db ≡ pending "s" table))
pending-mark_batch_example =
    pending-mark_batch "s" 2 table table first_two table-IsTable first_two_read

pending-cleanup_run : pending "s" (cleanup 3 table).0 ≡ pending "s" table
pending-cleanup_run = pending-cleanup "s" 3 table

-- A dead-letter queue that keeps its entries.
abbrev letters : DeadLetter.Manager
letters = record {
  Store = List FailedEvent;
  write = λ f st. (st ++ f ∷ [], none);
  cleanup = λ st. (st, ok 0);
}

abbrev config : BatchConfig
config = record {
  source_id = "s";
  batch_size = 2;
  flush_interval = 5;
  retention = 100;
  cleanup_interval = 50;
  retry_max_attempts = 2;
  dlq_enabled = true;
  dlq_retention = 1000;
}

abbrev processor : Processor postgres letters ℕ
processor = record {
  config = config;
  store = table;
  letters = some [];
  handled = 0;
  stats = record {
    batches_processed = 0;
    events_processed = 0;
    events_failed = 0;
    retry_count = 0;
    dlq_count = 0;
  };
  running = true;
  stop_closed = false;
}

-- A handler that takes every batch, and one that fails always.
abbrev taker : BatchHandler ℕ
taker bs n = (n + 1, none)

abbrev failer : BatchHandler ℕ
failer bs n = (n + 1, some (plain 5))

abbrev round : Round
round = record {
  interrupted = λ _. none;
  json = record { marshal = λ e. some e.lsn; unmarshal = λ _. none };
  now = 20;
}

process_batch-Ends_example :
    let (st, read) = read_batch "s" 2 table in
    let r = process_batch_with_retry failer round processor in
    Ends failer round processor st read r.0 r.1
process_batch-Ends_example = process_batch-Ends failer round processor

-- A batch that the handler never took is off the queue.
failed_batch_dropped :
    let (q, result) = process_batch_with_retry failer round processor in
    (pending "s" q.store ≡ arrival "s" "0/5" ∷ [])
    × (q.stats.events_failed ≡ 2)
    × (q.stats.dlq_count ≡ 2)
    × (result ≡ finished (some (plain 5)))
unfolding process_batch_with_retry read_batch write mark_processed to_row of_row try_handler
    send_to_dlq
failed_batch_dropped = (refl, refl, refl, refl)

round-Took_example : Took processor (process_batch_with_retry failer round processor).0
round-Took_example = round-Took failer round processor table-IsTable

taker_finishes : (process_batch_with_retry taker round processor).1 ≡ finished none
unfolding process_batch_with_retry read_batch write mark_processed to_row try_handler
taker_finishes = refl

finished-drops_batch_example :
    pending "s" (process_batch_with_retry taker round processor).0.store
    ≡ drop 2 (pending "s" table)
finished-drops_batch_example =
    finished-drops_batch taker round processor table-IsTable (omega arith) taker_finishes

abbrev stopped_processor : Processor postgres letters ℕ
stopped_processor = record processor { running = false; stop_closed = true }

processor_stops : stop processor ≡ some stopped_processor
unfolding stop
processor_stops = refl

restart_panics_run :
    let r = (start stopped_processor).0 in
    (r.running ≡ true) × (loops_live r ≡ false) × (stop r ≡ none)
restart_panics_run = restart_panics processor stopped_processor refl processor_stops
