-- ===== src/Schema/TypeJson.antt =====
-- rust/sdk/src/schema.rs: the JSON of a type, and the names of types. What serde_json does is the
-- parameter Serde.
use Prim.Native.String.{String, ◌++◌ as append}
use text.Mathlib.Text.{◌==◌ as str_eq, starts_with}
use zerobus_sdk.Common.{ℕ, ◌+◌, ◌||◌, Option, none, some, List, ltb, if◌then◌else◌}
use zerobus_sdk.Common.Assoc.{lookup}
use zerobus_sdk.Common.Text.{to_string}
use zerobus_sdk.Zeroparser.Registry.{string_eq}
use zerobus_sdk.Schema.Types.{
  SchemaError, unsupported_type, Result, ok, err, ◌>>=◌, PrimitiveType, ComplexType, StructFields,
  TypeRef, StructFieldsJson,
}

-- A JSON value, what it reads from a text, its entries when it is an object, and the type that it
-- stands for.
pub record Serde : Type 1 where
  pub Value : Type 0
  pub from_str : String → Result String Value
  pub as_object : Value → Option (List (String × Value))
  pub from_value : Value → Result String TypeRef

abbrev pub max_nesting_depth : ℕ
max_nesting_depth = 100

unfoldable pub parse_uc_top_level_type : String → Result SchemaError PrimitiveType
parse_uc_top_level_type s =
    if str_eq s "STRING"
    then ok PrimitiveType.string
    else if str_eq s "VARIANT"
    then ok PrimitiveType.variant
    else if str_eq s "INT" || str_eq s "INTEGER"
    then ok PrimitiveType.integer
    else if str_eq s "LONG" || str_eq s "BIGINT"
    then ok PrimitiveType.long
    else if str_eq s "SHORT" || str_eq s "SMALLINT"
    then ok PrimitiveType.short
    else if str_eq s "BYTE" || str_eq s "TINYINT"
    then ok PrimitiveType.byte
    else if str_eq s "BOOLEAN" || str_eq s "BOOL"
    then ok PrimitiveType.boolean
    else if str_eq s "DOUBLE"
    then ok PrimitiveType.double
    else if str_eq s "FLOAT"
    then ok PrimitiveType.float
    else if str_eq s "TIMESTAMP"
    then ok PrimitiveType.timestamp
    else if str_eq s "TIMESTAMP_NTZ"
    then ok PrimitiveType.timestamp_ntz
    else if str_eq s "DATE"
    then ok PrimitiveType.date
    else if str_eq s "BINARY"
    then ok PrimitiveType.binary
    else if str_eq s "DECIMAL"
    then ok PrimitiveType.decimal
    else err (unsupported_type s)

unfoldable pub parse_primitive_type : String → Result String PrimitiveType
parse_primitive_type s =
    if str_eq s "string"
    then ok PrimitiveType.string
    else if str_eq s "variant"
    then ok PrimitiveType.variant
    else if str_eq s "long"
    then ok PrimitiveType.long
    else if str_eq s "integer"
    then ok PrimitiveType.integer
    else if str_eq s "short"
    then ok PrimitiveType.short
    else if str_eq s "byte"
    then ok PrimitiveType.byte
    else if str_eq s "double"
    then ok PrimitiveType.double
    else if str_eq s "float"
    then ok PrimitiveType.float
    else if str_eq s "boolean"
    then ok PrimitiveType.boolean
    else if str_eq s "binary"
    then ok PrimitiveType.binary
    else if str_eq s "timestamp"
    then ok PrimitiveType.timestamp
    else if str_eq s "timestamp_ntz"
    then ok PrimitiveType.timestamp_ntz
    else if str_eq s "date"
    then ok PrimitiveType.date
    else if starts_with s "decimal"
    then ok PrimitiveType.decimal
    else err (append "unknown primitive type '" (append s "'"))

abbrev pub too_deep : {A : Type 0} → Result String A
too_deep = err (append "nesting level exceeds maximum depth of " (to_string max_nesting_depth))

unfoldable mutual
  unfolding parse_primitive_type to_string

  pub type_ref_to_complex : TypeRef → ℕ → Result String ComplexType
  type_ref_to_complex (TypeRef.primitive s) level =
      if ltb max_nesting_depth level
      then too_deep
      else do p ← parse_primitive_type s; ok (ComplexType.primitive p)
  type_ref_to_complex (TypeRef.struct fields) level =
      let out = fields_to_complex fields (level + 1) in
      if ltb max_nesting_depth level then too_deep else do fs ← out; ok (ComplexType.struct fs)
  type_ref_to_complex (TypeRef.array element) level =
      let inner = type_ref_to_complex element (level + 1) in
      if ltb max_nesting_depth level then too_deep else do t ← inner; ok (ComplexType.array t)
  type_ref_to_complex (TypeRef.map key value) level =
      let k = type_ref_to_complex key (level + 1) in
      let v = type_ref_to_complex value (level + 1) in
      if ltb max_nesting_depth level then too_deep else do a ← k; b ← v; ok (ComplexType.map a b)

  pub fields_to_complex : StructFieldsJson → ℕ → Result String StructFields
  fields_to_complex StructFieldsJson.no_fields level = ok StructFields.no_fields
  fields_to_complex (StructFieldsJson.struct_field name ty nullable rest) level = do
    t ← type_ref_to_complex ty level
    fs ← fields_to_complex rest level
    ok (StructFields.struct_field name t nullable fs)

module _ (serde : Serde) where
  -- The value under "type" where the JSON is an object that has "name" and "type".
  unfoldable pub unwrap_type : serde.Value → Option (List (String × serde.Value)) → serde.Value
  unwrap_type raw none = raw
  unwrap_type raw (some obj) = elim (lookup string_eq "name" obj) [
    | none ↦ raw
    | some name ↦ elim (lookup string_eq "type" obj) [ none ↦ raw | some type ↦ type ]
  ]

  unfoldable pub parse_type_json : String → Result String ComplexType
  unfolding unwrap_type type_ref_to_complex
  parse_type_json type_json =
      if str_eq type_json "" || str_eq type_json "{}" then err "empty type_json" else do
        raw ← serde.from_str type_json
        tref ← serde.from_value (unwrap_type raw (serde.as_object raw))
        type_ref_to_complex tref 0
