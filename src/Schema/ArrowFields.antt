-- ===== src/Schema/ArrowFields.antt =====
-- rust/sdk/src/schema.rs: the Arrow schema of a table. The types of arrow_schema are those that the
-- code builds; a field keeps its metadata in the order of the insertions.
use Prim.Native.String.{String}
use zerobus_sdk.Common.{Bool, true, false, ◌&&◌, none, some, List, [], ◌∷◌, if◌then◌else◌}
use zerobus_sdk.Schema.Types.{
  UcColumn, UcTableSchema, SchemaError, Result, ok, err, ◌>>=◌, ◌>>◌, PrimitiveType, string, long,
  integer, short, byte, double, float, boolean, binary, timestamp, timestamp_ntz, date, decimal,
  variant, ComplexType, primitive, struct, array, map, StructFields, no_fields, struct_field,
}
use zerobus_sdk.Schema.DataTypes.{DataType, Field, field, Fields, nil, cons}
use zerobus_sdk.Schema.Names.{validate_field_name}
use zerobus_sdk.Schema.TypeJson.{Serde, parse_uc_top_level_type}
use zerobus_sdk.Schema.FieldTypes.{unsupported_key, validate_map_key, shape_unsupported}
use zerobus_sdk.Schema.Descriptor.{is_complex, keep_positioned, sort_by_position, column_type}

-- `Field::new`.
abbrev pub new_field : String → DataType → Bool → Field
new_field name data_type nullable = field name data_type nullable []

pub record ArrowSchemaOptions : Type 0 where
  pub annotate_variant_extension : Bool

abbrev pub variant_extension_name : String
variant_extension_name = "arrow.parquet.variant"

-- `with_metadata` on the field's own metadata after the two insertions.
unfoldable pub variant_marked_field : Field → Field
variant_marked_field (field name data_type nullable metadata) =
    field name data_type nullable (
      ("ARROW:extension:name", variant_extension_name)
      ∷ ("ARROW:extension:metadata", "")
      ∷ metadata)

unfoldable pub variant_arrow_data_type : DataType
variant_arrow_data_type = DataType.struct (
    cons (new_field "metadata" DataType.large_binary false)
      (cons (new_field "value" DataType.large_binary false) nil))

unfoldable pub map_primitive_to_arrow : PrimitiveType → DataType
unfolding variant_arrow_data_type
map_primitive_to_arrow string = DataType.large_utf8
map_primitive_to_arrow long = DataType.int64
map_primitive_to_arrow integer = DataType.int32
map_primitive_to_arrow short = DataType.int16
map_primitive_to_arrow byte = DataType.int8
map_primitive_to_arrow double = DataType.float64
map_primitive_to_arrow float = DataType.float32
map_primitive_to_arrow boolean = DataType.boolean
map_primitive_to_arrow binary = DataType.large_binary
map_primitive_to_arrow timestamp = DataType.timestamp_microsecond (some "UTC")
map_primitive_to_arrow timestamp_ntz = DataType.timestamp_microsecond none
map_primitive_to_arrow date = DataType.date32
map_primitive_to_arrow decimal = DataType.large_utf8
map_primitive_to_arrow variant = variant_arrow_data_type

abbrev pub is_variant : PrimitiveType → Bool
is_variant variant = true
is_variant other = false

unfoldable pub primitive_arrow_field : String → PrimitiveType → Bool → ArrowSchemaOptions → Field
unfolding map_primitive_to_arrow variant_marked_field
primitive_arrow_field name p nullable options =
    let plain = new_field name (map_primitive_to_arrow p) nullable in
    if options.annotate_variant_extension && is_variant p then variant_marked_field plain else plain

unfoldable pub refuse_variant : PrimitiveType → String → Result SchemaError PrimitiveType
refuse_variant p path =
    if is_variant p
    then err
        (unsupported_key p path "(Arrow map keys must be scalar integral, bool, or string values)")
    else ok p

unfoldable pub validate_arrow_map_key : ComplexType → String → Result SchemaError PrimitiveType
unfolding validate_map_key refuse_variant
validate_arrow_map_key key path = do p ← validate_map_key key path; refuse_variant p path

unfoldable pub arrow_map : String → PrimitiveType → Field → Bool → Field
unfolding map_primitive_to_arrow
arrow_map name key value_field nullable =
    let entries =
      DataType.struct
        (cons (new_field "keys" (map_primitive_to_arrow key) false) (cons value_field nil)) in
    new_field name (DataType.map (new_field "entries" entries false) false) nullable

unfoldable mutual
  unfolding primitive_arrow_field validate_field_name validate_arrow_map_key shape_unsupported
      arrow_map

  pub complex_type_to_arrow_field :
      String → ComplexType → Bool → ArrowSchemaOptions → Result SchemaError Field
  complex_type_to_arrow_field name (primitive p) nullable options =
      ok (primitive_arrow_field name p nullable options)
  complex_type_to_arrow_field name (struct fields) nullable options = do
    children ← child_fields fields options
    ok (new_field name (DataType.struct children) nullable)
  complex_type_to_arrow_field name (array (primitive p)) nullable options =
      ok (new_field name (DataType.list (primitive_arrow_field "item" p true options)) nullable)
  complex_type_to_arrow_field name (array (struct fields)) nullable options = do
    item ← complex_type_to_arrow_field "item" (struct fields) true options
    ok (new_field name (DataType.list item) nullable)
  complex_type_to_arrow_field name (array (array element)) nullable options =
      err (shape_unsupported "nested arrays" name)
  complex_type_to_arrow_field name (array (map key value)) nullable options =
      err (shape_unsupported "arrays of maps" name)
  complex_type_to_arrow_field name (map key (primitive v)) nullable options = do
    k ← validate_arrow_map_key key name
    ok (arrow_map name k (primitive_arrow_field "values" v true options) nullable)
  complex_type_to_arrow_field name (map key (struct fields)) nullable options =
      let value = complex_type_to_arrow_field "values" (struct fields) true options in
      do
        k ← validate_arrow_map_key key name
        value_field ← value
        ok (arrow_map name k value_field nullable)
  complex_type_to_arrow_field name (map key (array element)) nullable options = do
    k ← validate_arrow_map_key key name
    err (shape_unsupported "maps with complex value types" name)
  complex_type_to_arrow_field name (map key (map k v)) nullable options = do
    p ← validate_arrow_map_key key name
    err (shape_unsupported "maps with complex value types" name)

  pub child_fields : StructFields → ArrowSchemaOptions → Result SchemaError Fields
  child_fields no_fields options = ok nil
  child_fields (struct_field name ty nullable rest) options = do
    validate_field_name name
    child ← complex_type_to_arrow_field name ty nullable options
    others ← child_fields rest options
    ok (cons child others)

module _ (serde : Serde) where
  unfoldable pub uc_column_to_arrow_field : UcColumn → ArrowSchemaOptions → Result SchemaError Field
  unfolding column_type complex_type_to_arrow_field parse_uc_top_level_type primitive_arrow_field
  uc_column_to_arrow_field column options =
      if is_complex column.type_name
      then (do
        complex ← column_type serde column
        complex_type_to_arrow_field column.name complex column.nullable options)
      else (do
        p ← parse_uc_top_level_type column.type_name
        ok (primitive_arrow_field column.name p column.nullable options))

  -- The loop over the sorted columns.
  unfoldable pub arrow_fields : List UcColumn → ArrowSchemaOptions → Result SchemaError (List Field)
  unfolding validate_field_name uc_column_to_arrow_field
  arrow_fields [] options = ok []
  arrow_fields (column ∷ columns) options = do
    validate_field_name column.name
    first ← uc_column_to_arrow_field column options
    others ← arrow_fields columns options
    ok (first ∷ others)

  -- A schema is its fields.
  unfoldable pub arrow_schema_from_uc_columns_with_options :
      List UcColumn → ArrowSchemaOptions → Result SchemaError (List Field)
  unfolding arrow_fields
  arrow_schema_from_uc_columns_with_options columns options =
      arrow_fields (sort_by_position (keep_positioned columns)) options

  unfoldable pub arrow_schema_from_uc_columns : List UcColumn → Result SchemaError (List Field)
  unfolding arrow_schema_from_uc_columns_with_options
  arrow_schema_from_uc_columns columns =
      arrow_schema_from_uc_columns_with_options columns
        (record { annotate_variant_extension = false })

  unfoldable pub arrow_schema_from_uc_schema : UcTableSchema → Result SchemaError (List Field)
  unfolding arrow_schema_from_uc_columns
  arrow_schema_from_uc_schema schema = arrow_schema_from_uc_columns schema.columns

  unfoldable pub arrow_schema_from_uc_schema_with_options :
      UcTableSchema → ArrowSchemaOptions → Result SchemaError (List Field)
  unfolding arrow_schema_from_uc_columns_with_options
  arrow_schema_from_uc_schema_with_options schema options =
      arrow_schema_from_uc_columns_with_options schema.columns options
