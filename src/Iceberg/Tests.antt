-- ===== src/Iceberg/Tests.antt =====
-- Runs of the schemas.
use philotes.Common.Maps.{put, lookup}
use philotes.Common.{◌||◌, ℕ, ◌≡◌, refl, List, [], ◌∷◌, map, none, if◌then◌else◌, ◌==◌, false}
use Prim.Native.String.{String}
use text.Mathlib.Text.{◌==◌ as str_eq}
use mathlib.Core.List.Perm
use philotes.Common.Errors.{ok, err, plain, wrapped}
use philotes.Common.Maps.{lookup}
use philotes.Buffer.{BufferedEvent}
use philotes.Iceberg.Writer.{
  IcebergServices, IcebergConfig, IcebergWriter, DataFile, written, write_failed, write_events,
  table_failed, commit_failed, group_events_by_table,
}
use philotes.Iceberg.Writer.Commits.{
  is_written, non_empty, of_table, AllCommitted, Stopped, write_events-commits,
}
use philotes.Cdc.{Event, Value, insert}
use philotes.Iceberg.{
  cdc_system_columns, infer_type_from_value, GoKind, go_int64, go_nil, go_string, long, string,
  timestamp, double, Field, IcebergSchema, map_postgres_to_iceberg,
}
use philotes.Iceberg.Schema.{build_from_events, default_partition_spec, merge_schemas}
use philotes.Iceberg.Schema.Names.{has, appears}
use philotes.Iceberg.Schema.Evolution.{Evolved, merge_all, build_from_events-evolves}

-- 7 stands for a number and 0 for nil.
abbrev kind_of : Value → GoKind
kind_of v = if v == 7 then go_int64 else if v == 0 then go_nil else go_string

abbrev event : Event
event = record {
  id = "e";
  lsn = "0/1";
  transaction_id = 1;
  timestamp = 5;
  schema = "public";
  table = "users";
  operation = insert;
  before = ("id", 7) ∷ [];
  after = ("name", 1) ∷ ("id", 7) ∷ [];
  key_columns = [];
  metadata = [];
}

abbrev without_id : Event
without_id = record event { after = ("id", 0) ∷ [] }

abbrev column : Field
column = record { id = 1; name = "age"; field_type = long; required = false; doc = "" }

abbrev twice : IcebergSchema
twice = record { schema_id = 0; fields = column ∷ column ∷ [] }

abbrev ids : List Field → List ℕ
ids fs = map (λ f. f.id) fs

built_ids : ids (build_from_events kind_of (event ∷ []) 1).0.fields ≡ 1 ∷ 2 ∷ 3 ∷ 4 ∷ 5 ∷ []
unfolding build_from_events lookup put
built_ids = refl

built_types :
    map (λ f. f.field_type) (build_from_events kind_of (event ∷ []) 1).0.fields
    ≡ long ∷ string ∷ string ∷ timestamp ∷ string ∷ []
unfolding build_from_events lookup put infer_type_from_value
built_types = refl

null_makes_string :
    map (λ f. f.field_type) (build_from_events kind_of (event ∷ without_id ∷ []) 1).0.fields
    ≡ string ∷ string ∷ string ∷ timestamp ∷ string ∷ []
unfolding build_from_events lookup put infer_type_from_value
null_makes_string = refl

new_name_twice :
    ids (merge_schemas (build_from_events kind_of (event ∷ []) 1).0 twice 6).0.fields
    ≡ 1 ∷ 2 ∷ 3 ∷ 4 ∷ 5 ∷ 6 ∷ 7 ∷ []
unfolding merge_schemas build_from_events lookup put
new_name_twice = refl

partition_source :
    map
      (λ p. p.source_id)
      (default_partition_spec (build_from_events kind_of (event ∷ []) 1).0).fields
    ≡ 4 ∷ []
unfolding default_partition_spec build_from_events lookup put
partition_source = refl

numeric_is_double : map_postgres_to_iceberg (λ s. s) "numeric(10,2)" ≡ double
unfolding map_postgres_to_iceberg lookup
numeric_is_double = refl

arrays_are_strings : map_postgres_to_iceberg (λ s. s) "integer[]" ≡ string
unfolding map_postgres_to_iceberg
arrays_are_strings = refl

build_from_events-evolves_example :
    let built = build_from_events kind_of (event ∷ []) 1 in
    ((name : String)
      → has name built.0.fields ≡ (appears name (event ∷ []) || has name cdc_system_columns))
    × Evolved 1 (twice ∷ []) built (merge_all (twice ∷ []) built)
    × (built.0.schema_id ≡ 0)
build_from_events-evolves_example = build_from_events-evolves kind_of (event ∷ []) 1 (twice ∷ [])

-- The world is the tables of the commits, with the numbers of their records. Commits to "broken" fail.
abbrev Log : Type 0
Log = List (String × ℕ)

abbrev count_records : List DataFile → ℕ
count_records [] = 0
count_records (f ∷ fs) = f.record_count

abbrev services : IcebergServices Log
services = record {
  kind_of = kind_of;
  marshal = λ c. ok "{}";
  encode = λ rs. ok ("bytes", 5);
  new_file_name = λ w. ("f", w);
  table_exists = λ ns t w. (ok false, w);
  load_table = λ ns t w. (ok ([], 0), w);
  create_table = λ ns t s p w. (ok tt, w);
  commit_snapshot = λ ns t fs w.
      if str_eq t "broken" then (err (plain 1), w) else (ok tt, (t, count_records fs) ∷ w);
  ensure_bucket = λ b w. (ok tt, w);
  upload = λ b k d n w. (ok tt, w);
  delete_file = λ b k w. (ok tt, w);
}

abbrev config : IcebergConfig
config = record { bucket = "b"; warehouse_path = "w"; default_namespace = "d" }

abbrev writer : IcebergWriter
writer = record { next_field_id = 1; table_schemas = [] }

abbrev buffered : String → BufferedEvent
buffered table = record {
  id = 1;
  event = record event { table = table };
  created_at = 1;
  processed_at = none;
}

abbrev batch : List BufferedEvent
batch = buffered "a" ∷ buffered "b" ∷ buffered "a" ∷ []

abbrev half : List BufferedEvent
half = buffered "broken" ∷ buffered "a" ∷ []

abbrev unchanged : List (String × List BufferedEvent) → List (String × List BufferedEvent)
unchanged groups = groups

batch_written : (write_events services config unchanged batch writer []).0 ≡ written
unfolding write_events put lookup
batch_written = refl

batch_commits :
    (write_events services config unchanged batch writer []).2 ≡ ("b", 1) ∷ ("a", 2) ∷ []
unfolding write_events put lookup
batch_commits = refl

half_commits : (write_events services config unchanged half writer []).2 ≡ ("a", 1) ∷ []
unfolding write_events put lookup
half_commits = refl

half_fails :
    (write_events services config unchanged half writer []).0
    ≡ write_failed (wrapped table_failed (wrapped commit_failed (plain 1)))
unfolding write_events put lookup
half_fails = refl

write_events-commits_example :
    ((key : String) → lookup key (group_events_by_table half) ≡ non_empty (of_table key half))
    × ((write_events services config unchanged half writer []).0 ≡ written
        → AllCommitted services config
            (unchanged (group_events_by_table half))
            writer
            []
            (write_events services config unchanged half writer []).1
            (write_events services config unchanged half writer []).2)
    × (is_written (write_events services config unchanged half writer []).0 ≡ false
        → Stopped services config
            (unchanged (group_events_by_table half))
            writer
            []
            (write_events services config unchanged half writer []).1
            (write_events services config unchanged half writer []).2)
write_events-commits_example =
    write_events-commits services config unchanged half
      (write_events services config unchanged half writer []).0 writer
      (write_events services config unchanged half writer []).1 []
      (write_events services config unchanged half writer []).2 (λ groups. Perm.refl groups) refl
