-- ===== src/Schema/DataTypes.antt =====
-- The types of arrow_schema that rust/sdk/src/schema.rs builds. A field has its name, type,
-- nullability and metadata.
use Prim.Native.String.{String}
use zerobus_sdk.Common.{Bool, Option, List}

mutual
  pub data DataType : Type 0 where
    large_utf8 int64 int32 int16 int8 float64 float32 boolean large_binary date32 : DataType
    timestamp_microsecond : Option String → DataType
    struct : Fields → DataType
    list : Field → DataType
    map : Field → Bool → DataType

  pub data Field : Type 0 where
    field : String → DataType → Bool → List (String × String) → Field

  pub data Fields : Type 0 where
    nil : Fields
    cons : Field → Fields → Fields
