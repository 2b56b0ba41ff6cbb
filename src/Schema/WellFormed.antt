-- ===== src/Schema/WellFormed.antt =====
-- The descriptors of tables are well formed.
use Prim.Native.String.{String, ◌++◌ as append}
use zerobus_sdk.Common.{◌++◌, ◌≡◌, inr, refl, Bool, true, false, some, List, [], ◌∷◌, if◌then◌else◌}
use zerobus_sdk.Zeroparser.Registry.{FieldDescriptorProto, DescriptorProto, descriptor_proto}
use zerobus_sdk.Schema.Types.{
  UcColumn, UcTableSchema, SchemaError, Result, ok, err, ForOk, ForOk->>=, any-ForOk, PrimitiveType,
  ComplexType,
}
use zerobus_sdk.Schema.Names.{validate_field_name, sanitize_message_name, MessageCollector, new}
use zerobus_sdk.Schema.TypeJson.{Serde, parse_uc_top_level_type}
use zerobus_sdk.Schema.FieldTypes.{field_descriptor}
use zerobus_sdk.Schema.Descriptor.{
  map_complex_type_to_protobuf, is_complex, keep_positioned, sort_by_position, column_type,
  column_field, column_fields, descriptor_from_uc_columns, descriptor_from_uc_schema,
}
use zerobus_sdk.Schema.Identifiers.{
  IsIdentifier, IsMessageName, sanitize_message_name-IsMessageName,
}
use zerobus_sdk.Schema.Scopes.{
  names, name_of, Includes-append, fields-weaken, IsField, WellFormed, IsScope, IsCollector,
  Extends, Extends-trans, Extends-Includes, IsTyped-weaken,
}
use zerobus_sdk.Schema.Collected.{
  primitive_no_message, new-IsCollector, Extends-refl, validated, Mapped, Fielded,
}
use zerobus_sdk.Schema.Messages.{map_complex-Mapped}

module _ (serde : Serde) where
  OneField : MessageCollector → FieldDescriptorProto × MessageCollector → Type 0
  OneField c (f, d) = IsCollector d × Extends c d × IsField (names d.nested) f

  if_ForOk :
      {A : Type 0} (P : A → Type 0) (b : Bool) (m n : Result SchemaError A)
      → ForOk P m
      → ForOk P n
      → ForOk P (if b then m else n)
  if_ForOk P true m n h k = h
  if_ForOk P false m n h k = k

  column_field-OneField :
      (column : UcColumn) (c : MessageCollector)
      → IsIdentifier column.name
      → IsCollector c
      → ForOk (OneField c) (column_field serde column c)
  unfolding column_field field_descriptor OneField
  column_field-OneField column c ident i =
      if_ForOk (OneField c) (is_complex column.type_name) _ _
        (ForOk->>= (λ (t : ComplexType). Unit) (OneField c) (column_type serde column) _
          (any-ForOk (column_type serde column))
          (λ complex u.
            ForOk->>= (Mapped c) (OneField c) (map_complex_type_to_protobuf complex column.name c) _
              (map_complex-Mapped complex column.name c i)
              (λ mapped m. (m.0, m.1, ((column.name, refl, ident), m.2)))))
        (ForOk->>= (λ (p : PrimitiveType). Unit) (OneField c)
          (parse_uc_top_level_type column.type_name) _
          (any-ForOk (parse_uc_top_level_type column.type_name))
          (λ p u.
            (i, Extends-refl c, ((column.name, refl, ident), inr (primitive_no_message p, refl)))))

  column_fields-Fielded :
      (columns : List UcColumn) (c : MessageCollector)
      → IsCollector c
      → ForOk (Fielded c) (column_fields serde columns c)
  unfolding column_fields OneField
  column_fields-Fielded [] c i = (i, Extends-refl c, tt)
  column_fields-Fielded (column ∷ columns) c i =
      ForOk->>= (λ (u : Unit). IsIdentifier column.name) (Fielded c)
        (validate_field_name column.name) _
        (validated column.name (validate_field_name column.name) refl)
        (λ u ident.
          ForOk->>= (OneField c) (Fielded c) (column_field serde column c) _
            (column_field-OneField column c ident i)
            (λ built b.
              ForOk->>= (Fielded built.1) (Fielded c) (column_fields serde columns built.1) _
                (column_fields-Fielded columns built.1 b.0)
                (λ others o. (
                  o.0,
                  Extends-trans c built.1 others.1 b.1 o.1,
                  (
                    (
                      b.2.0,
                      IsTyped-weaken (names built.1.nested) (names others.1.nested) built.0.type
                          built.0.type_name (Extends-Includes built.1 others.1 o.1) b.2.1,
                    ),
                    o.2,
                  ),
                ))))

  -- A descriptor of that name with a scope.
  IsNamed : String → DescriptorProto → Type 0
  IsNamed name d = IsScope d × (name_of d ≡ some name)

  descriptor_from_uc_columns-IsNamed :
      (columns : List UcColumn) (message_name : String)
      → ForOk (IsNamed message_name) (descriptor_from_uc_columns serde columns message_name)
  unfolding descriptor_from_uc_columns IsScope IsNamed
  descriptor_from_uc_columns-IsNamed columns message_name =
      let sorted = sort_by_position (keep_positioned columns) in
      ForOk->>= (Fielded new) (IsNamed message_name) (column_fields serde sorted new) _
        (column_fields-Fielded sorted new new-IsCollector) (λ built b. ((b.2, b.0.1, b.0.0), refl))

  IsScope-WellFormed :
      (name : String) (d : DescriptorProto) → IsMessageName name → IsNamed name d → WellFormed [] d
  unfolding WellFormed IsScope IsNamed
  IsScope-WellFormed name (descriptor_proto n fields nested oneofs options) h
        ((f, distinct, all), e) =
      (
        (name, e, h),
        fields-weaken (names nested) (names nested ++ []) fields (Includes-append (names nested) [])
            f,
        distinct,
        all,
      )

  ForOk-weaken :
      {A : Type 0} (P Q : A → Type 0) (m : Result SchemaError A)
      → ((a : A) → P a → Q a)
      → ForOk P m
      → ForOk Q m
  ForOk-weaken P Q (ok a) f h = f a h
  ForOk-weaken P Q (err e) f h = tt

  -- The descriptor of any table, where there is one: its name and those of the messages nested in it,
  -- at every depth, are identifiers, those within one message differ, every field has an identifier
  -- for its name, a field of message type names a message nested in its own message or beside it, and
  -- no other field names one.
  pub descriptor_from_uc_schema-WellFormed :
      (schema : UcTableSchema) → ForOk (WellFormed []) (descriptor_from_uc_schema serde schema)
  unfolding descriptor_from_uc_schema
  descriptor_from_uc_schema-WellFormed schema =
      let name = sanitize_message_name (append schema.schema_name (append "_" schema.name)) in
      ForOk-weaken (IsNamed name) (WellFormed [])
        (descriptor_from_uc_columns serde schema.columns name)
        (λ d h.
          IsScope-WellFormed name d
            (sanitize_message_name-IsMessageName
              (append schema.schema_name (append "_" schema.name)))
            h)
        (descriptor_from_uc_columns-IsNamed schema.columns name)
