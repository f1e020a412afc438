-- ===== src/Iceberg/Schema.antt =====
-- internal/iceberg/schema/schema.go: schemas from the columns of events, and their evolution. The values of
-- an event are known by their dynamic types (`kind_of`). Maps are read in any order in the program, and
-- here in the order in which they stand.
pub mod Names
pub mod Added
pub mod Evolution
use Prim.Native.String.{String, compare}
use text.Mathlib.Text.{◌==◌ as str_eq, is_lt}
use philotes.Common.{
  ℕ, suc, ◌+◌, ◌==◌, Bool, true, false, Option, none, some, List, [], ◌∷◌, ◌++◌, map, length,
  if◌then◌else◌, is_some,
}
use philotes.Common.Maps.{lookup, put}
use philotes.Cdc.{Event, Value, Columns}
use philotes.Iceberg.{
  IcebergType, boolean, int, long, float, double, date, time, timestamp, string, uuid, binary,
  Field, IcebergSchema, PartitionField, PartitionSpec, cdc_system_columns, GoKind,
  infer_type_from_value,
}

abbrev number_of : IcebergType → ℕ
number_of boolean = 0
number_of int = 1
number_of long = 2
number_of float = 3
number_of double = 4
number_of date = 5
number_of time = 6
number_of timestamp = 7
number_of string = 8
number_of uuid = 9
number_of binary = 10

abbrev pub same_type : IcebergType → IcebergType → Bool
same_type a b = number_of a == number_of b

abbrev pub TypeMap : Type 0
TypeMap = List (String × IcebergType)

-- A type that conflicts with the one that was found before becomes a string.
unfoldable pub merge_type : String → IcebergType → TypeMap → TypeMap
merge_type name t columns = elim (lookup name columns) [
  | none ↦ put name t columns
  | some old ↦ if same_type old t then columns else put name string columns
]

unfoldable pub add_missing : String → IcebergType → TypeMap → TypeMap
add_missing name t columns = elim (lookup name columns) [
  | none ↦ put name t columns
  | some old ↦ columns
]

-- The loops over the data behind and before the change.
unfoldable pub add_after : (Value → GoKind) → Columns → TypeMap → TypeMap
unfolding merge_type
add_after kind_of [] columns = columns
add_after kind_of ((name, v) ∷ rest) columns =
    add_after kind_of rest (merge_type name (infer_type_from_value (kind_of v)) columns)

unfoldable pub add_before : (Value → GoKind) → Columns → TypeMap → TypeMap
unfolding add_missing
add_before kind_of [] columns = columns
add_before kind_of ((name, v) ∷ rest) columns =
    add_before kind_of rest (add_missing name (infer_type_from_value (kind_of v)) columns)

unfoldable pub add_events : (Value → GoKind) → List Event → TypeMap → TypeMap
unfolding add_after add_before
add_events kind_of [] columns = columns
add_events kind_of (e ∷ es) columns =
    add_events kind_of es (add_before kind_of e.before (add_after kind_of e.after columns))

-- `sort.Strings` on the names, with their types.
unfoldable pub insert_column : String × IcebergType → TypeMap → TypeMap
insert_column c [] = c ∷ []
insert_column c (d ∷ ds) =
    let rest = insert_column c ds in if is_lt (compare d.0 c.0) then d ∷ rest else c ∷ d ∷ ds

unfoldable pub sort_columns : TypeMap → TypeMap
unfolding insert_column
sort_columns [] = []
sort_columns (c ∷ cs) = insert_column c (sort_columns cs)

abbrev pub user_field : String × IcebergType → Field
user_field (name, t) = record { id = 0; name = name; field_type = t; required = false; doc = "" }

-- The loops that give each field the next ID.
unfoldable pub number_fields : ℕ → List Field → List Field
number_fields next [] = []
number_fields next (f ∷ fs) = record f { id = next } ∷ number_fields (suc next) fs

-- A builder is its next ID; it comes back with the schema.
unfoldable pub build_schema : TypeMap → ℕ → IcebergSchema × ℕ
unfolding sort_columns number_fields
build_schema columns next =
    let fields = map user_field (sort_columns columns) ++ cdc_system_columns in
    (record { schema_id = 0; fields = number_fields next fields }, next + length fields)

unfoldable pub build_from_events : (Value → GoKind) → List Event → ℕ → IcebergSchema × ℕ
unfolding add_events build_schema
build_from_events kind_of events next = build_schema (add_events kind_of events []) next

-- The loop of `BuildFromData`.
unfoldable pub add_data : (Value → GoKind) → Columns → TypeMap → TypeMap
add_data kind_of [] columns = columns
add_data kind_of ((name, v) ∷ rest) columns =
    add_data kind_of rest (put name (infer_type_from_value (kind_of v)) columns)

unfoldable pub build_from_data : (Value → GoKind) → Columns → ℕ → IcebergSchema × ℕ
unfolding add_data build_schema
build_from_data kind_of data_ next = build_schema (add_data kind_of data_ []) next

unfoldable pub find_field : String → List Field → Option Field
find_field name [] = none
find_field name (f ∷ fs) =
    let rest = find_field name fs in if str_eq f.name name then some f else rest

abbrev pub get_field_by_name : IcebergSchema → String → Option Field
get_field_by_name schema name = find_field name schema.fields

abbrev date_partition : ℕ → PartitionField
date_partition source = record {
  source_id = source;
  field_id = 1000;
  name = "_cdc_date";
  transform = "day";
}

-- An ID of 0 is none.
unfoldable pub default_partition_spec : IcebergSchema → PartitionSpec
unfolding find_field
default_partition_spec schema = elim (find_field "_cdc_timestamp" schema.fields) [
  | none ↦ record { spec_id = 0; fields = [] }
  | some f ↦
      if f.id == 0
      then record { spec_id = 0; fields = [] }
      else record { spec_id = 0; fields = date_partition f.id ∷ [] }
]

-- The loop over the fields of the second schema; `existing` are the fields of the first.
unfoldable pub added_fields : List Field → List Field → ℕ → List Field × ℕ
unfolding find_field
added_fields existing [] next = ([], next)
added_fields existing (f ∷ fs) next =
    let known = added_fields existing fs next in
    let (rest, last) = added_fields existing fs (suc next) in
    if is_some (find_field f.name existing) then known else (record f { id = next } ∷ rest, last)

unfoldable pub merge_schemas : IcebergSchema → IcebergSchema → ℕ → IcebergSchema × ℕ
unfolding added_fields
merge_schemas existing new next =
    let (added, last) = added_fields existing.fields new.fields next in
    (record { schema_id = existing.schema_id + 1; fields = existing.fields ++ added }, last)
