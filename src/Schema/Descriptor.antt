-- ===== src/Schema/Descriptor.antt =====
-- rust/sdk/src/schema.rs: the descriptor of a table. The fields of a descriptor that the code leaves
-- at their default are not in the model of prost's types, or are none.
use Prim.Native.String.{String, ◌++◌ as append}
use text.Mathlib.Text.{◌==◌ as str_eq}
use zerobus_sdk.Common.{
  ℕ, zero, suc, ◌+◌, Bool, false, ◌||◌, Option, none, some, List, [], ◌∷◌, if◌then◌else◌,
}
use zerobus_sdk.Common.Int.{ℤ, pos, negsuc, to_i32, ltb_ℤ}
use zerobus_sdk.Zeroparser.Types.{FieldType}
use zerobus_sdk.Zeroparser.Registry.{FieldDescriptorProto, DescriptorProto, descriptor_proto}
use zerobus_sdk.Schema.Types.{
  UcColumn, UcTableSchema, SchemaError, missing_type_json, invalid_type_json, Result, ok, err,
  ◌>>=◌, ◌>>◌, map_err, ComplexType, primitive, struct, array, map, StructFields, no_fields,
  struct_field, is_list,
}
use zerobus_sdk.Schema.Names.{
  validate_field_name, sanitize_message_name, MessageCollector, new, unique_name, push,
}
use zerobus_sdk.Schema.TypeJson.{Serde, parse_uc_top_level_type, parse_type_json}
use zerobus_sdk.Schema.FieldTypes.{
  map_primitive_to_protobuf, validate_map_key, shape_unsupported, field_descriptor, primitive_value,
  message_value, finish_map,
}

-- The end of `generate_struct_message`.
abbrev pub with_fields :
    String
    → Result SchemaError (List FieldDescriptorProto × MessageCollector)
    → Result SchemaError DescriptorProto
with_fields message_name built = do
  (fields, local) ← built
  ok (descriptor_proto (some message_name) fields local.nested 0 none)

unfoldable mutual
  unfolding map_primitive_to_protobuf validate_map_key shape_unsupported unique_name
      sanitize_message_name finish_map push validate_field_name field_descriptor

  -- With the type and its name goes the collector.
  pub map_complex_type_to_protobuf :
      ComplexType
      → String
      → MessageCollector
      → Result SchemaError (FieldType × Option String × MessageCollector)
  map_complex_type_to_protobuf (primitive p) path collector =
      ok (map_primitive_to_protobuf p, none, collector)
  map_complex_type_to_protobuf (struct fields) path collector =
      let (name, c) = unique_name collector (sanitize_message_name path) in
      do
        msg ← with_fields name (struct_fields name fields 0 new)
        ok (FieldType.message, some name, push c msg)
  map_complex_type_to_protobuf (array (primitive p)) path collector =
      ok (map_primitive_to_protobuf p, none, collector)
  map_complex_type_to_protobuf (array (struct fields)) path collector =
      map_complex_type_to_protobuf (struct fields) (append (sanitize_message_name path) "_element")
        collector
  map_complex_type_to_protobuf (array (array element)) path collector =
      err (shape_unsupported "nested arrays" path)
  map_complex_type_to_protobuf (array (map key value)) path collector =
      err (shape_unsupported "arrays of maps" path)
  map_complex_type_to_protobuf (map key (primitive v)) path collector = do
    k ← validate_map_key key path
    finish_map (sanitize_message_name path) k (primitive_value v) collector
  map_complex_type_to_protobuf (map key (struct fields)) path collector =
      let base = sanitize_message_name path in
      let (value_name, c) = unique_name collector (append base "Value") in
      let message = with_fields value_name (struct_fields value_name fields 0 new) in
      do
        k ← validate_map_key key path
        value_msg ← message
        finish_map base k (message_value value_name) (push c value_msg)
  map_complex_type_to_protobuf (map key (array element)) path collector = do
    k ← validate_map_key key path
    err (shape_unsupported "maps with complex value types" path)
  map_complex_type_to_protobuf (map key (map k v)) path collector = do
    k ← validate_map_key key path
    err (shape_unsupported "maps with complex value types" path)

  -- The loop of `generate_struct_message` over the fields, from an index on.
  pub struct_fields :
      String
      → StructFields
      → ℕ
      → MessageCollector
      → Result SchemaError (List FieldDescriptorProto × MessageCollector)
  struct_fields message_name no_fields index local = ok ([], local)
  struct_fields message_name (struct_field name ty nullable rest) index local = do
    validate_field_name name
    mapped ← map_complex_type_to_protobuf ty (append message_name (append "_" name)) local
    others ← struct_fields message_name rest (index + 1) mapped.2
    ok (
      field_descriptor name (to_i32 (index + 1)) mapped.0 mapped.1 nullable (is_list ty) ∷ others.0,
      others.1,
    )

unfoldable pub generate_struct_message : String → StructFields → Result SchemaError DescriptorProto
unfolding struct_fields
generate_struct_message message_name fields =
    with_fields message_name (struct_fields message_name fields 0 new)

abbrev pub is_complex : String → Bool
is_complex type_name =
    str_eq type_name "STRUCT" || str_eq type_name "ARRAY" || str_eq type_name "MAP"

-- `filter(|c| c.position >= 0)`.
abbrev pub keep_positioned : List UcColumn → List UcColumn
keep_positioned [] = []
keep_positioned (c ∷ cs) =
    let rest = keep_positioned cs in if ltb_ℤ c.position (pos 0) then rest else c ∷ rest

-- `sort_by_key` on the position: stable.
abbrev pub insert_column : UcColumn → List UcColumn → List UcColumn
insert_column c [] = c ∷ []
insert_column c (d ∷ ds) =
    let rest = insert_column c ds in if ltb_ℤ d.position c.position then d ∷ rest else c ∷ d ∷ ds

abbrev pub sort_by_position : List UcColumn → List UcColumn
sort_by_position [] = []
sort_by_position (c ∷ cs) = insert_column c (sort_by_position cs)

-- `position + 1` on an i32, which wraps around at the greatest in a release build.
abbrev pub add_one_i32 : ℤ → ℤ
add_one_i32 (pos n) = to_i32 (n + 1)
add_one_i32 (negsuc zero) = pos 0
add_one_i32 (negsuc (suc n)) = negsuc n

module _ (serde : Serde) where
  -- The type of a complex column.
  unfoldable pub column_type : UcColumn → Result SchemaError ComplexType
  unfolding parse_type_json
  column_type column =
      if str_eq column.type_json ""
      then err (missing_type_json column.name)
      else map_err (invalid_type_json column.name) (parse_type_json serde column.type_json)

  -- The field of a column, and the collector.
  unfoldable pub column_field :
      UcColumn → MessageCollector → Result SchemaError (FieldDescriptorProto × MessageCollector)
  unfolding column_type map_complex_type_to_protobuf parse_uc_top_level_type field_descriptor
      map_primitive_to_protobuf
  column_field column collector =
      let field = λ (t : FieldType) (n : Option String) (repeated : Bool).
        field_descriptor column.name (add_one_i32 column.position) t n column.nullable repeated in
      if is_complex column.type_name
      then (do
        complex ← column_type column
        mapped ← map_complex_type_to_protobuf complex column.name collector
        ok (field mapped.0 mapped.1 (is_list complex), mapped.2))
      else (do
        p ← parse_uc_top_level_type column.type_name
        ok (field (map_primitive_to_protobuf p) none false, collector))

  -- The loop over the sorted columns.
  unfoldable pub column_fields :
      List UcColumn
      → MessageCollector
      → Result SchemaError (List FieldDescriptorProto × MessageCollector)
  unfolding validate_field_name column_field
  column_fields [] collector = ok ([], collector)
  column_fields (column ∷ columns) collector = do
    validate_field_name column.name
    built ← column_field column collector
    others ← column_fields columns built.1
    ok (built.0 ∷ others.0, others.1)

  unfoldable pub descriptor_from_uc_columns :
      List UcColumn → String → Result SchemaError DescriptorProto
  unfolding column_fields
  descriptor_from_uc_columns columns message_name = do
    built ← column_fields (sort_by_position (keep_positioned columns)) new
    ok (descriptor_proto (some message_name) built.0 built.1.nested 0 none)

  unfoldable pub descriptor_from_uc_schema : UcTableSchema → Result SchemaError DescriptorProto
  unfolding sanitize_message_name descriptor_from_uc_columns
  descriptor_from_uc_schema schema =
      descriptor_from_uc_columns schema.columns
        (sanitize_message_name (append schema.schema_name (append "_" schema.name)))
