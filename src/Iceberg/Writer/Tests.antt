-- ===== src/Iceberg/Writer/Tests.antt =====
-- A round of the batch processor that writes to Iceberg.
use Prim.Native.String.{String}
use mathlib.Core.List.Perm
use philotes.Common.Maps.{lookup, put}
use philotes.Common.{ℕ, ◌≡◌, suc, refl, none, true, false, List, [], ◌∷◌, map, take, drop, arith}
use philotes.Common.Errors.{ok}
use philotes.Cdc.{Event, insert}
use philotes.DeadLetter.Postgres.{postgres as letters}
use philotes.Buffer.{BufferedEvent}
use philotes.Buffer.Postgres.{to_row, Db}
use philotes.Buffer.Postgres.Statements.{write, read_batch, mark_processed, postgres}
use philotes.Buffer.Postgres.Queue.{pending}
use philotes.Buffer.Postgres.Table.{Call, writes, apply_all, empty_table, history-IsTable}
use philotes.Buffer.Batch.{Round, Processor}
use philotes.Buffer.Batch.Process.{try_handler, finished, process_batch_with_retry}
use philotes.Iceberg.{go_other}
use philotes.Iceberg.Writer.{
  write_events, IcebergServices, IcebergConfig, IcebergWriter, batch_handler,
}
use philotes.Iceberg.Writer.Delivery.{Stored, finished-Stored}

-- The world counts the commits.
abbrev services : IcebergServices ℕ
services = record {
  kind_of = λ v. go_other;
  marshal = λ c. ok "{}";
  encode = λ rs. ok ("bytes", 5);
  new_file_name = λ w. ("f", w);
  table_exists = λ ns t w. (ok false, w);
  load_table = λ ns t w. (ok ([], 0), w);
  create_table = λ ns t s p w. (ok tt, w);
  commit_snapshot = λ ns t fs w. (ok tt, suc w);
  ensure_bucket = λ b w. (ok tt, w);
  upload = λ b k d n w. (ok tt, w);
  delete_file = λ b k w. (ok tt, w);
}

abbrev config : IcebergConfig
config = record { bucket = "b"; warehouse_path = "w"; default_namespace = "d" }

abbrev change : String → Event
change table = record {
  id = "s";
  lsn = "0/1";
  transaction_id = 1;
  timestamp = 5;
  schema = "public";
  table = table;
  operation = insert;
  before = [];
  after = ("id", 7) ∷ [];
  key_columns = [];
  metadata = [];
}

abbrev history : List Call
history = writes (change "a" ∷ change "b" ∷ change "a" ∷ []) ∷ []

abbrev table : Db
table = apply_all empty_table history

abbrev processor : Processor postgres letters (IcebergWriter × ℕ)
processor = record {
  config = record {
    source_id = "s";
    batch_size = 2;
    flush_interval = 1;
    retention = 10;
    cleanup_interval = 5;
    retry_max_attempts = 2;
    dlq_enabled = false;
    dlq_retention = 10;
  };
  store = table;
  letters = none;
  handled = (record { next_field_id = 1; table_schemas = [] }, 0);
  stats = record {
    batches_processed = 0;
    events_processed = 0;
    events_failed = 0;
    retry_count = 0;
    dlq_count = 0;
  };
  running = true;
  stop_closed = false;
}

abbrev round : Round
round = record {
  interrupted = λ i. none;
  json = record { marshal = λ e. none; unmarshal = λ t. none };
  now = 20;
}

abbrev unchanged : List (String × List BufferedEvent) → List (String × List BufferedEvent)
unchanged groups = groups

round_finishes :
    (process_batch_with_retry (batch_handler services config unchanged) round processor).1
    ≡ finished none
unfolding process_batch_with_retry read_batch write to_row try_handler write_events put lookup
    mark_processed
round_finishes = refl

two_commits :
    (process_batch_with_retry (batch_handler services config unchanged) round processor).0.handled.1
    ≡ 2
unfolding process_batch_with_retry read_batch write to_row try_handler write_events put lookup
    mark_processed
two_commits = refl

finished-Stored_example :
    let q =
      (process_batch_with_retry (batch_handler services config unchanged) round processor).0 in
    (pending "s" q.store ≡ drop 2 (pending "s" table))
    × ((bs : List BufferedEvent) × (map (λ b. b.event) bs ≡ take 2 (pending "s" table))
        × Stored services config unchanged (λ groups. Perm.refl groups) round bs q)
finished-Stored_example =
    finished-Stored services config unchanged (λ groups. Perm.refl groups) round processor
      (history-IsTable history) (omega arith) round_finishes
