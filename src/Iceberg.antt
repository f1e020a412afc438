-- ===== src/Iceberg.antt =====
-- internal/iceberg/types.go and schema/types.go: the types and schemas of Iceberg tables. IDs are natural
-- numbers.
mod Tests
pub mod Schema
pub mod Writer
use Prim.Native.String.{String, len, slice}
use text.Mathlib.Text.{◌==◌ as str_eq, find?}
use philotes.Common.{
  ℕ, suc, ◌-◌, Bool, true, false, Option, none, some, List, [], ◌∷◌, ltb, if◌then◌else◌,
}
use philotes.Common.Maps.{lookup}

pub data IcebergType : Type 0 where
  boolean int long float double date time timestamp string uuid binary : IcebergType

pub record Field : Type 0 where
  pub id : ℕ
  pub name : String
  pub field_type : IcebergType
  pub required : Bool
  pub doc : String

pub record IcebergSchema : Type 0 where
  pub schema_id : ℕ
  pub fields : List Field

pub record PartitionField : Type 0 where
  pub source_id : ℕ
  pub field_id : ℕ
  pub name : String
  pub transform : String

pub record PartitionSpec : Type 0 where
  pub spec_id : ℕ
  pub fields : List PartitionField

-- The IDs of these, which are negative, are never read.
abbrev pub cdc_system_columns : List Field
cdc_system_columns =
    record {
      id = 0;
      name = "_cdc_operation";
      field_type = string;
      required = true;
      doc = "CDC operation type (INSERT, UPDATE, DELETE)";
    }
    ∷ record {
      id = 0;
      name = "_cdc_timestamp";
      field_type = timestamp;
      required = true;
      doc = "Timestamp when the CDC event occurred";
    }
    ∷ record {
      id = 0;
      name = "_cdc_lsn";
      field_type = string;
      required = true;
      doc = "PostgreSQL Log Sequence Number";
    }
    ∷ []

abbrev pub postgres_type_mapping : List (String × IcebergType)
postgres_type_mapping =
    ("smallint", int)
    ∷ ("int2", int)
    ∷ ("integer", int)
    ∷ ("int", int)
    ∷ ("int4", int)
    ∷ ("bigint", long)
    ∷ ("int8", long)
    ∷ ("serial", int)
    ∷ ("bigserial", long)
    ∷ ("real", float)
    ∷ ("float4", float)
    ∷ ("double precision", double)
    ∷ ("float8", double)
    ∷ ("numeric", double)
    ∷ ("decimal", double)
    ∷ ("boolean", boolean)
    ∷ ("bool", boolean)
    ∷ ("text", string)
    ∷ ("varchar", string)
    ∷ ("char", string)
    ∷ ("character", string)
    ∷ ("name", string)
    ∷ ("date", date)
    ∷ ("time", time)
    ∷ ("time without time zone", time)
    ∷ ("time with time zone", time)
    ∷ ("timestamp", timestamp)
    ∷ ("timestamp without time zone", timestamp)
    ∷ ("timestamp with time zone", timestamp)
    ∷ ("timestamptz", timestamp)
    ∷ ("bytea", binary)
    ∷ ("uuid", uuid)
    ∷ ("json", string)
    ∷ ("jsonb", string)
    ∷ ("inet", string)
    ∷ ("cidr", string)
    ∷ ("macaddr", string)
    ∷ ("oid", long)
    ∷ []

abbrev is_array : String → Bool
is_array s = if ltb (len s) 2 then false else str_eq (slice s (len s - 2) (len s)) "[]"

-- What stands before a bracket that is not the first character.
abbrev without_bracket : String → String
without_bracket s = elim (find? s "(") [ none ↦ s | some i ↦ if ltb 0 i then slice s 0 i else s ]

-- `normalize` is strings.ToLower behind strings.TrimSpace.
unfoldable pub map_postgres_to_iceberg : (String → String) → String → IcebergType
map_postgres_to_iceberg normalize pg_type =
    let name = normalize pg_type in
    if is_array name
    then string
    else elim (lookup (without_bracket name) postgres_type_mapping) [ some t ↦ t | none ↦ string ]

-- The dynamic type of a Go value.
pub data GoKind : Type 0 where
  go_nil go_bool go_int go_int32 go_int64 go_float32 go_float64 go_string go_bytes : GoKind
  go_other : GoKind

unfoldable pub infer_type_from_value : GoKind → IcebergType
infer_type_from_value go_bool = boolean
infer_type_from_value go_int = int
infer_type_from_value go_int32 = int
infer_type_from_value go_int64 = long
infer_type_from_value go_float32 = float
infer_type_from_value go_float64 = double
infer_type_from_value go_bytes = binary
infer_type_from_value go_nil = string
infer_type_from_value go_string = string
infer_type_from_value go_other = string
