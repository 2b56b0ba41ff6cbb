-- ===== src/Schema/Accepts.antt =====
-- Which tables have a descriptor and an Arrow schema.
use Prim.Native.String.{String}
use zerobus_sdk.Common.{
  ◌≡◌, refl, ap, ◌∙◌, arith, Bool, true, false, ◌&&◌, List, [], ◌∷◌, if◌then◌else◌,
}
use zerobus_sdk.Common.Int.{pos, ltb_ℤ}
use zerobus_sdk.Schema.Types.{
  UcColumn, SchemaError, Result, ok, err, ◌>>=◌, PrimitiveType, ComplexType,
}
use zerobus_sdk.Schema.Names.{validate_field_name, MessageCollector, new}
use zerobus_sdk.Schema.TypeJson.{Serde, parse_uc_top_level_type}
use zerobus_sdk.Schema.Descriptor.{
  is_complex, keep_positioned, insert_column, sort_by_position, column_type, column_field,
  column_fields, descriptor_from_uc_columns, map_complex_type_to_protobuf,
}
use zerobus_sdk.Schema.ArrowFields.{
  ArrowSchemaOptions, uc_column_to_arrow_field, arrow_fields,
  arrow_schema_from_uc_columns_with_options,
}
use zerobus_sdk.Schema.Supported.{
  is_ok, is_identifier, supported, is_descriptor_map_key, is_arrow_map_key, is_ok->>=,
  is_ok-validate_field_name, is_ok-map_complex, is_ok-complex_type_to_arrow_field, and_true,
}

both : (a b c d e : Bool) → a ≡ b → b && c ≡ d → a && (c && e) ≡ d && e
both a b c d e p q = ground arith

module _ (serde : Serde) where
  abbrev type_supported : (PrimitiveType → Bool) → Result SchemaError ComplexType → Bool
  type_supported key (ok t) = supported key t
  type_supported key (err e) = false

  unfoldable pub column_supported : (PrimitiveType → Bool) → UcColumn → Bool
  column_supported key column =
      is_identifier column.name
      && (if is_complex column.type_name
          then type_supported key (column_type serde column)
          else is_ok (parse_uc_top_level_type column.type_name))

  -- Every column whose position is not negative is supported.
  unfoldable pub accepts : (PrimitiveType → Bool) → List UcColumn → Bool
  unfolding column_supported
  accepts key [] = true
  accepts key (c ∷ cs) =
      let rest = accepts key cs in
      if ltb_ℤ c.position (pos 0) then rest else column_supported key c && rest

  abbrev all_supported : (PrimitiveType → Bool) → List UcColumn → Bool
  all_supported key [] = true
  all_supported key (c ∷ cs) = column_supported key c && all_supported key cs

  all_supported-insert_column :
      (key : PrimitiveType → Bool) (c : UcColumn) (cs : List UcColumn)
      → all_supported key (insert_column c cs) ≡ column_supported key c && all_supported key cs
  all_supported-insert_column key c [] = refl
  all_supported-insert_column key c (d ∷ ds) = ground (arith, all_supported-insert_column key c ds)

  all_supported-sort :
      (key : PrimitiveType → Bool) (cs : List UcColumn)
      → all_supported key (sort_by_position cs) ≡ all_supported key cs
  all_supported-sort key [] = refl
  all_supported-sort key (c ∷ cs) =
      all_supported-insert_column key c (sort_by_position cs)
      ∙ ap (λ b. column_supported key c && b) (all_supported-sort key cs)

  all_supported-keep :
      (key : PrimitiveType → Bool) (cs : List UcColumn)
      → all_supported key (keep_positioned cs) ≡ accepts key cs
  unfolding accepts
  all_supported-keep key [] = refl
  all_supported-keep key (c ∷ cs) = ground (arith, all_supported-keep key cs)

  is_ok-if :
      {A : Type 0} (b x y : Bool) (m n : Result SchemaError A)
      → is_ok m ≡ x
      → is_ok n ≡ y
      → is_ok (if b then m else n) ≡ (if b then x else y)
  is_ok-if true x y m n h k = h
  is_ok-if false x y m n h k = k

  -- A complex column: its type, and then what is made of it.
  is_ok-type :
      {A : Type 0} (key : PrimitiveType → Bool) (r : Result SchemaError ComplexType)
      (f : ComplexType → Result SchemaError A)
      → ((t : ComplexType) → is_ok (f t) ≡ supported key t)
      → is_ok (r >>= f) ≡ type_supported key r
  is_ok-type key (ok t) f h = h t
  is_ok-type key (err e) f h = refl

  is_ok-column_field :
      (column : UcColumn) (c : MessageCollector)
      → is_identifier column.name && is_ok (column_field serde column c)
        ≡ column_supported is_descriptor_map_key column
  unfolding column_field column_supported
  is_ok-column_field column c =
      ap (λ b. is_identifier column.name && b)
        (is_ok-if (is_complex column.type_name) _ _ _ _
          (is_ok-type is_descriptor_map_key (column_type serde column) _ (λ t.
            is_ok->>= (map_complex_type_to_protobuf t column.name c) _ true (λ m. refl)
            ∙ and_true _
            ∙ is_ok-map_complex t column.name c))
          (is_ok->>= (parse_uc_top_level_type column.type_name) _ true (λ p. refl) ∙ and_true _))

  is_ok-column_fields :
      (columns : List UcColumn) (c : MessageCollector)
      → is_ok (column_fields serde columns c) ≡ all_supported is_descriptor_map_key columns
  unfolding column_fields
  is_ok-column_fields [] c = refl
  is_ok-column_fields (column ∷ columns) c =
      is_ok->>= (validate_field_name column.name) _
        (is_ok (column_field serde column c) && all_supported is_descriptor_map_key columns)
        (λ u.
          is_ok->>= (column_field serde column c) _ (all_supported is_descriptor_map_key columns)
            (λ built.
              is_ok->>= (column_fields serde columns built.1) _ true (λ o. refl)
              ∙ and_true _
              ∙ is_ok-column_fields columns built.1))
      ∙ both _ _ _ _ _ (is_ok-validate_field_name column.name) (is_ok-column_field column c)

  is_ok-arrow_field :
      (column : UcColumn) (options : ArrowSchemaOptions)
      → is_identifier column.name && is_ok (uc_column_to_arrow_field serde column options)
        ≡ column_supported is_arrow_map_key column
  unfolding uc_column_to_arrow_field column_supported
  is_ok-arrow_field column options =
      ap (λ b. is_identifier column.name && b)
        (is_ok-if (is_complex column.type_name) _ _ _ _
          (is_ok-type is_arrow_map_key (column_type serde column) _
            (λ t. is_ok-complex_type_to_arrow_field column.name t column.nullable options))
          (is_ok->>= (parse_uc_top_level_type column.type_name) _ true (λ p. refl) ∙ and_true _))

  is_ok-arrow_fields :
      (columns : List UcColumn) (options : ArrowSchemaOptions)
      → is_ok (arrow_fields serde columns options) ≡ all_supported is_arrow_map_key columns
  unfolding arrow_fields
  is_ok-arrow_fields [] options = refl
  is_ok-arrow_fields (column ∷ columns) options =
      is_ok->>= (validate_field_name column.name) _
        (is_ok (uc_column_to_arrow_field serde column options)
          && all_supported is_arrow_map_key columns)
        (λ u.
          is_ok->>= (uc_column_to_arrow_field serde column options) _
            (all_supported is_arrow_map_key columns)
            (λ first.
              is_ok->>= (arrow_fields serde columns options) _ true (λ o. refl)
              ∙ and_true _
              ∙ is_ok-arrow_fields columns options))
      ∙ both _ _ _ _ _ (is_ok-validate_field_name column.name) (is_ok-arrow_field column options)

  -- Columns have a descriptor exactly when each of them whose position is not negative is supported,
  -- with no DOUBLE, FLOAT or BINARY for a key of a map, and an Arrow schema exactly when, besides, no
  -- key is a VARIANT, whatever the options.
  pub schemas_accept :
      (columns : List UcColumn) (message_name : String) (options : ArrowSchemaOptions)
      → (is_ok (descriptor_from_uc_columns serde columns message_name)
          ≡ accepts is_descriptor_map_key columns)
        × (is_ok (arrow_schema_from_uc_columns_with_options serde columns options)
            ≡ accepts is_arrow_map_key columns)
  unfolding descriptor_from_uc_columns arrow_schema_from_uc_columns_with_options
  schemas_accept columns message_name options =
      let kept = keep_positioned columns in
      (
        is_ok->>= (column_fields serde (sort_by_position kept) new) _ true (λ b. refl)
            ∙ and_true _
            ∙ is_ok-column_fields (sort_by_position kept) new
            ∙ all_supported-sort is_descriptor_map_key kept
            ∙ all_supported-keep is_descriptor_map_key columns,
        is_ok-arrow_fields (sort_by_position kept) options
            ∙ all_supported-sort is_arrow_map_key kept
            ∙ all_supported-keep is_arrow_map_key columns,
      )
