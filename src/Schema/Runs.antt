-- ===== src/Schema/Runs.antt =====
-- A table of three columns, and a reader of JSON that knows two texts.
use Prim.Native.String.{String}
use text.Mathlib.Text.{◌==◌ as str_eq}
use mathlib.Core.List.{Permᴰ}
use zerobus_sdk.Common.{◌≡◌, refl, Bool, true, false, ◌&&◌, none, List, [], ◌∷◌, leb, if◌then◌else◌}
use zerobus_sdk.Common.Int.{ℤ, pos, negsuc}
use zerobus_sdk.Schema.Types.{UcColumn, UcTableSchema, ok, err, ForOk, TypeRef, StructFieldsJson}
use zerobus_sdk.Schema.TypeJson.{
  Serde, max_nesting_depth, parse_uc_top_level_type, type_ref_to_complex,
}
use zerobus_sdk.Schema.Descriptor.{
  column_type, descriptor_from_uc_columns, descriptor_from_uc_schema,
}
use zerobus_sdk.Schema.ArrowFields.{ArrowSchemaOptions, arrow_schema_from_uc_columns_with_options}
use zerobus_sdk.Schema.Scopes.{WellFormed}
use zerobus_sdk.Schema.WellFormed.{descriptor_from_uc_schema-WellFormed}
use zerobus_sdk.Schema.Supported.{
  is_ok, is_identifier, supported, is_descriptor_map_key, is_arrow_map_key,
}
use zerobus_sdk.Schema.Accepts.{accepts, schemas_accept}
use zerobus_sdk.Schema.Columns.{schemas-perm}
use zerobus_sdk.Schema.Depth.{height, known, type_ref_to_complex_accepts}

-- A struct with a string and an array of structs, and a map from variants to such a struct.
abbrev point : TypeRef
point =
    TypeRef.struct
      (StructFieldsJson.struct_field "x" (TypeRef.primitive "long") true StructFieldsJson.no_fields)

abbrev payload : TypeRef
payload = TypeRef.struct (
    StructFieldsJson.struct_field "name" (TypeRef.primitive "string") true (
      StructFieldsJson.struct_field "points" (TypeRef.array point) false
        StructFieldsJson.no_fields))

abbrev tags : TypeRef
tags = TypeRef.map (TypeRef.primitive "variant") payload

abbrev reader : Serde
reader = record {
  Value = TypeRef;
  from_str = λ s.
      if str_eq s "payload" then ok payload else if str_eq s "tags" then ok tags else err "JSON";
  as_object = λ v. none;
  from_value = λ v. ok v;
}

abbrev column : String → String → String → Bool → ℤ → UcColumn
column name type_name type_json nullable position = record {
  name = name;
  type_name = type_name;
  type_text = "";
  type_json = type_json;
  nullable = nullable;
  position = position;
}

abbrev id_column : UcColumn
id_column = column "id" "BIGINT" "" false (pos 0)

abbrev payload_column : UcColumn
payload_column = column "pay_load" "STRUCT" "payload" true (pos 4)

abbrev tags_column : UcColumn
tags_column = column "tags" "MAP" "tags" true (pos 2)

abbrev dropped_column : UcColumn
dropped_column = column "9" "NONE" "" true (negsuc 0)

abbrev columns : List UcColumn
columns = payload_column ∷ dropped_column ∷ id_column ∷ tags_column ∷ []

abbrev table : UcTableSchema
table = record { name = "events"; catalog_name = "main"; schema_name = "raw"; columns = columns }

abbrev marked : ArrowSchemaOptions
marked = record { annotate_variant_extension = true }

descriptor_from_uc_schema-WellFormed_example :
    ForOk (WellFormed []) (descriptor_from_uc_schema reader table)
descriptor_from_uc_schema-WellFormed_example = descriptor_from_uc_schema-WellFormed reader table

schemas-perm_example :
    (descriptor_from_uc_columns reader columns "Events"
      ≡ descriptor_from_uc_columns reader
          (dropped_column ∷ payload_column ∷ id_column ∷ tags_column ∷ [])
          "Events")
    × (arrow_schema_from_uc_columns_with_options reader columns marked
        ≡ arrow_schema_from_uc_columns_with_options reader
            (dropped_column ∷ payload_column ∷ id_column ∷ tags_column ∷ [])
            marked)
schemas-perm_example =
    schemas-perm reader columns (dropped_column ∷ payload_column ∷ id_column ∷ tags_column ∷ [])
      "Events" marked (Permᴰ.swap refl refl)
      ((refl, (refl, (refl, tt))), ((refl, (refl, tt)), ((refl, tt), (tt, tt))))

schemas_accept_example :
    (is_ok (descriptor_from_uc_columns reader columns "Events")
      ≡ accepts reader is_descriptor_map_key columns)
    × (is_ok (arrow_schema_from_uc_columns_with_options reader columns marked)
        ≡ accepts reader is_arrow_map_key columns)
schemas_accept_example = schemas_accept reader columns "Events" marked

-- The descriptor is accepted, and the Arrow schema is not: a key is a variant.
accepted :
    (accepts reader is_descriptor_map_key columns ≡ true)
    × (accepts reader is_arrow_map_key columns ≡ false)
unfolding accepts is_arrow_map_key is_descriptor_map_key is_identifier column_type supported
    parse_uc_top_level_type
accepted = (refl, refl)

type_ref_to_complex_accepts_example :
    is_ok (type_ref_to_complex tags 0) ≡ leb (height tags) max_nesting_depth && known tags
type_ref_to_complex_accepts_example = type_ref_to_complex_accepts tags
