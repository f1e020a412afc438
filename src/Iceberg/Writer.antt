-- ===== src/Iceberg/Writer.antt =====
-- internal/iceberg/writer: the writer of batches (writer.go) and the records of its files (parquet.go). The
-- catalog, the storage, JSON and the encoding of files are services on one world `W`. The groups of a batch
-- are a map, which is read in an order that the program does not fix: it is the parameter `order`.
pub mod Commits
pub mod Delivery
mod Tests
use Prim.Native.String.{String, slice, len, ◌++◌ as ◌joined◌}
use text.Mathlib.Text.{find?}
use philotes.Common.{
  ℕ, zero, suc, ◌+◌, ◌*◌, ◌/◌, Bool, true, false, Option, none, some, List, [], ◌∷◌, ◌++◌, map,
  length, if◌then◌else◌, is_some,
}
use philotes.Common.Errors.{GoError, plain, wrapped, Fallible, ok, err}
use philotes.Common.Maps.{lookup, put}
use philotes.Cdc.{Event, Columns, Operation, Value}
use philotes.Buffer.{BufferedEvent}
use philotes.Buffer.Batch.{BatchHandler}
use philotes.Iceberg.{IcebergSchema, PartitionSpec, GoKind}
use philotes.Iceberg.Schema.{build_from_events, default_partition_spec}

pub record IcebergConfig : Type 0 where
  pub bucket : String
  pub warehouse_path : String
  pub default_namespace : String

-- No partition data is set by the writer.
pub record DataFile : Type 0 where
  pub file_path : String
  pub file_format : String
  pub record_count : ℕ
  pub file_size_in_bytes : ℕ

pub record CdcRecord : Type 0 where
  pub data_json : String
  pub cdc_operation : Operation
  pub cdc_timestamp : ℕ
  pub cdc_lsn : String
  pub cdc_table : String
  pub cdc_schema : String

pub record ParquetResult : Type 0 where
  pub file_data : String
  pub file_name : String
  pub record_count : ℕ
  pub file_size_in_bytes : ℕ

-- The encoding of records gives the bytes of a file and their number.
pub record IcebergServices (W : Type 0) : Type 0 where
  pub kind_of : Value → GoKind
  pub marshal : Columns → Fallible String
  pub encode : List CdcRecord → Fallible (String × ℕ)
  pub new_file_name : W → String × W
  pub table_exists : String → String → W → Fallible Bool × W
  pub load_table : String → String → W → Fallible (List IcebergSchema × ℕ) × W
  pub create_table : String → String → IcebergSchema → PartitionSpec → W → Fallible (Unit {0}) × W
  pub commit_snapshot : String → String → List DataFile → W → Fallible (Unit {0}) × W
  pub ensure_bucket : String → W → Fallible (Unit {0}) × W
  pub upload : String → String → String → ℕ → W → Fallible (Unit {0}) × W
  pub delete_file : String → String → W → Fallible (Unit {0}) × W

pub record IcebergWriter : Type 0 where
  pub next_field_id : ℕ
  pub table_schemas : List (String × IcebergSchema)

-- How a write ends; the index of a list may be out of its range.
pub data WriteEnd : Type 0 where
  written index_panics : WriteEnd
  write_failed : GoError → WriteEnd

-- The numbers by which the errors are known.
abbrev pub ensure_failed : ℕ
ensure_failed = 100

abbrev pub parquet_failed : ℕ
parquet_failed = 101

abbrev pub upload_failed : ℕ
upload_failed = 102

abbrev pub commit_failed : ℕ
commit_failed = 103

abbrev pub exists_failed : ℕ
exists_failed = 104

abbrev pub load_table_failed : ℕ
load_table_failed = 105

abbrev pub bucket_failed : ℕ
bucket_failed = 106

abbrev pub create_failed : ℕ
create_failed = 107

abbrev pub table_failed : ℕ
table_failed = 108

abbrev pub marshal_failed : ℕ
marshal_failed = 109

abbrev pub write_panicked : ℕ
write_panicked = 111

abbrev pub no_events : ℕ
no_events = 110

abbrev pub fully_qualified_table : Event → String
fully_qualified_table e = e.schema joined "." joined e.table

abbrev pub has_after : Event → Bool
has_after e = elim (e.after) [ [] ↦ false | c ∷ cs ↦ true ]

abbrev pub add_to_group :
    String → BufferedEvent → List (String × List BufferedEvent) → List (String × List BufferedEvent)
add_to_group key e groups =
    put key (elim (lookup key groups) [ none ↦ e ∷ [] | some es ↦ es ++ (e ∷ []) ]) groups

-- The loop of `groupEventsByTable`, over the groups that there are.
unfoldable pub group_events :
    List (String × List BufferedEvent) → List BufferedEvent → List (String × List BufferedEvent)
group_events groups [] = groups
group_events groups (e ∷ es) =
    group_events (add_to_group (fully_qualified_table e.event) e groups) es

abbrev pub group_events_by_table : List BufferedEvent → List (String × List BufferedEvent)
group_events_by_table es = group_events [] es

abbrev pub parse_table_key : IcebergConfig → String → String × String
parse_table_key cfg key = elim (find? key ".") [
  | none ↦ (cfg.default_namespace, key)
  | some i ↦ (slice key 0 i, slice key (i + 1) (len key))
]

abbrev pub get_table_data_path : IcebergConfig → String → String → String
get_table_data_path cfg namespace table =
    cfg.warehouse_path joined "/" joined namespace joined "/" joined table joined "/data"

-- The schema at an index.
abbrev pub schema_at : ℕ → List IcebergSchema → Option IcebergSchema
schema_at i [] = none
schema_at zero (x ∷ xs) = some x
schema_at (suc i) (x ∷ xs) = schema_at i xs

-- What comes behind a call that may fail: `code` is the number of the error that wraps its own.
abbrev pub behind :
    {A W S : Type 0} → ℕ → S → Fallible A × W → (A → W → WriteEnd × S × W) → WriteEnd × S × W
behind code st (ok a, w) next = next a w
behind code st (err x, w) next = (write_failed (wrapped code x), st, w)

-- What comes behind a step that may end the write.
abbrev pub behind_end :
    {W S : Type 0} → ℕ → WriteEnd × S × W → (S → W → WriteEnd × S × W) → WriteEnd × S × W
behind_end code (written, st, w) next = next st w
behind_end code (index_panics, st, w) next = (index_panics, st, w)
behind_end code (write_failed x, st, w) next = (write_failed (wrapped code x), st, w)

module _ {W : Type 0} (s : IcebergServices W) (cfg : IcebergConfig) where
  -- Without columns behind and before the change the map is empty. Times are in nanoseconds, and those of records in milliseconds.
  abbrev pub event_to_record : Event → Fallible CdcRecord
  event_to_record e = elim (s.marshal (if has_after e then e.after else e.before)) [
    | err x ↦ err (wrapped marshal_failed x)
    | ok text ↦ ok (record {
      data_json = text;
      cdc_operation = e.operation;
      cdc_timestamp = e.timestamp / 1000000;
      cdc_lsn = e.lsn;
      cdc_table = e.table;
      cdc_schema = e.schema;
    })
  ]

  -- The loop over the events.
  unfoldable pub to_records : List BufferedEvent → Fallible (List CdcRecord)
  to_records [] = ok []
  to_records (e ∷ es) =
      let rest = to_records es in
      elim (event_to_record e.event) [
        | err x ↦ err (wrapped parquet_failed x)
        | ok r ↦ elim rest [ err x ↦ err x | ok rs ↦ ok (r ∷ rs) ]
      ]

  unfoldable pub write_parquet : List BufferedEvent → W → Fallible ParquetResult × W
  unfolding to_records
  write_parquet [] w = (err (plain no_events), w)
  write_parquet (e ∷ es) w = elim (to_records (e ∷ es)) [
    | err x ↦ (err x, w)
    | ok records ↦ elim (s.encode records) [
      | err x ↦ (err (wrapped parquet_failed x), w)
      | ok bytes ↦
          let (name, w') = s.new_file_name w in
          (
            ok (record {
              file_data = bytes.0;
              file_name = name;
              record_count = length (e ∷ es);
              file_size_in_bytes = bytes.1;
            }),
            w',
          )
    ]
  ]

  -- The schema of a table that exists is cached, if the table has one.
  abbrev pub cache_loaded :
      String → IcebergWriter → List IcebergSchema × ℕ → W → WriteEnd × IcebergWriter × W
  cache_loaded key st ([], current) w = (written, st, w)
  cache_loaded key st (x ∷ xs, current) w = elim (schema_at current (x ∷ xs)) [
    | none ↦ (index_panics, st, w)
    | some schema ↦ (written, record st { table_schemas = put key schema st.table_schemas }, w)
  ]

  -- The builder has moved on whether or not the table is created.
  abbrev pub create_from :
      String → String → List BufferedEvent → IcebergWriter → W → WriteEnd × IcebergWriter × W
  create_from namespace table events st w =
      let (schema, next) =
        build_from_events s.kind_of (map (λ e. e.event) events) st.next_field_id in
      let st' = record st { next_field_id = next } in
      behind bucket_failed st' (s.ensure_bucket cfg.bucket w) (λ _ w.
        behind create_failed st'
          (s.create_table namespace table schema (default_partition_spec schema) w)
          (λ _ w. (
            written,
            record st' {
              table_schemas = put (namespace joined "." joined table) schema st.table_schemas;
            },
            w,
          )))

  unfoldable pub ensure_table :
      String → String → List BufferedEvent → IcebergWriter → W → WriteEnd × IcebergWriter × W
  ensure_table namespace table events st w =
      let key = namespace joined "." joined table in
      if is_some (lookup key st.table_schemas)
      then (written, st, w)
      else behind exists_failed st (s.table_exists namespace table w) (λ exists w.
        if exists
        then behind load_table_failed st (s.load_table namespace table w) (cache_loaded key st)
        else create_from namespace table events st w)

  abbrev pub data_file : String → ParquetResult → DataFile
  data_file key result = record {
    file_path = "s3://" joined cfg.bucket joined "/" joined key;
    file_format = "parquet";
    record_count = result.record_count;
    file_size_in_bytes = result.file_size_in_bytes;
  }

  -- A file whose commit fails is deleted again; whether that fails is not asked.
  abbrev pub commit_file :
      String → String → String → ParquetResult → IcebergWriter → W → WriteEnd × IcebergWriter × W
  commit_file namespace table key result st w =
      let (answer, w) = s.commit_snapshot namespace table (data_file key result ∷ []) w in
      elim answer [
        | ok _ ↦ (written, st, w)
        | err x ↦ (write_failed (wrapped commit_failed x), st, (s.delete_file cfg.bucket key w).1)
      ]

  unfoldable pub write_table_events :
      String → List BufferedEvent → IcebergWriter → W → WriteEnd × IcebergWriter × W
  unfolding ensure_table write_parquet
  write_table_events table_key [] st w = (written, st, w)
  write_table_events table_key (e ∷ es) st w =
      let (namespace, table) = parse_table_key cfg table_key in
      behind_end ensure_failed (ensure_table namespace table (e ∷ es) st w) (λ st w.
        behind parquet_failed st (write_parquet (e ∷ es) w) (λ result w.
          let key = get_table_data_path cfg namespace table joined "/" joined result.file_name in
          behind upload_failed st
            (s.upload cfg.bucket key result.file_data result.file_size_in_bytes w)
            (λ _ w. commit_file namespace table key result st w)))

  -- The loop of `WriteEvents` over the groups, which ends at the first that fails.
  unfoldable pub write_groups :
      List (String × List BufferedEvent) → IcebergWriter → W → WriteEnd × IcebergWriter × W
  unfolding write_table_events
  write_groups [] st w = (written, st, w)
  write_groups ((key, es) ∷ rest) st w =
      behind_end table_failed (write_table_events key es st w) (write_groups rest)

  unfoldable pub write_events :
      (List (String × List BufferedEvent) → List (String × List BufferedEvent))
      → List BufferedEvent
      → IcebergWriter
      → W
      → WriteEnd × IcebergWriter × W
  unfolding group_events write_groups
  write_events order [] st w = (written, st, w)
  write_events order (e ∷ es) st w = write_groups (order (group_events_by_table (e ∷ es))) st w

-- The error of the handler. A panic ends the program: what comes behind it here is no run of it.
abbrev pub error_of_end : WriteEnd → Option GoError
error_of_end written = none
error_of_end index_panics = some (plain write_panicked)
error_of_end (write_failed x) = some x

module _ {W : Type 0} (s : IcebergServices W) (cfg : IcebergConfig)
    (order : List (String × List BufferedEvent) → List (String × List BufferedEvent)) where
  abbrev pub batch_handler : BatchHandler (IcebergWriter × W)
  batch_handler es (st, w) =
      let (end, st', w') = write_events s cfg order es st w in ((st', w'), error_of_end end)
