-- ===== src/Schema/Messages.antt =====
-- The messages that the code collects for a type are well formed.
use Prim.Native.String.{String, ◌++◌ as append}
use zerobus_sdk.Common.{ℕ, ◌+◌, ◌≡◌, inr, refl, Option, some, List, ◌∷◌}
use zerobus_sdk.Common.Int.{to_i32}
use zerobus_sdk.Zeroparser.Types.{FieldType}
use zerobus_sdk.Zeroparser.Registry.{FieldDescriptorProto}
use zerobus_sdk.Schema.Types.{
  ForOk, ForOk->>=, PrimitiveType, ComplexType, primitive, struct, array, map, StructFields,
  no_fields, struct_field, is_list,
}
use zerobus_sdk.Schema.Names.{
  validate_field_name, sanitize_message_name, MessageCollector, new, unique_name,
}
use zerobus_sdk.Schema.FieldTypes.{validate_map_key, field_descriptor, primitive_value}
use zerobus_sdk.Schema.Descriptor.{map_complex_type_to_protobuf, with_fields, struct_fields}
use zerobus_sdk.Schema.Identifiers.{
  IsIdentifier, IsMessageName-append, sanitize_message_name-IsMessageName,
}
use zerobus_sdk.Schema.Unique.{unique_name-Fresh}
use zerobus_sdk.Schema.Scopes.{names, IsCollector, Extends-trans, Extends-Includes, IsTyped-weaken}
use zerobus_sdk.Schema.Collected.{
  primitive_no_message, new-IsCollector, Mapped, Fielded, Extends-refl, validated,
  validate_map_key-ForOk, finish_map-Mapped, with_fields-Built, collect-Mapped,
  collect_value-Mapped,
}

struct-Mapped :
    (fields : StructFields) (path : String) (c : MessageCollector)
    → IsCollector c
    → ((name : String) → ForOk (Fielded new) (struct_fields name fields 0 new))
    → ForOk (Mapped c) (map_complex_type_to_protobuf (struct fields) path c)
unfolding map_complex_type_to_protobuf
struct-Mapped fields path c i h =
    let base = sanitize_message_name path in
    let fresh = unique_name-Fresh c base (sanitize_message_name-IsMessageName path) in
    let name = (unique_name c base).0 in
    collect-Mapped c (unique_name c base) (with_fields name (struct_fields name fields 0 new)) i
      fresh
      (with_fields-Built name (names c.nested) (struct_fields name fields 0 new) fresh.1 (h name))

-- One more field before the others.
Fielded-cons :
    (c : MessageCollector) (mapped : FieldType × Option String × MessageCollector)
    (others : List FieldDescriptorProto × MessageCollector) (f : FieldDescriptorProto)
    {name : String}
    → IsIdentifier name
    → Mapped c mapped
    → Fielded mapped.2 others
    → f.name ≡ some name
    → f.type ≡ mapped.0
    → f.type_name ≡ mapped.1
    → Fielded c (f ∷ others.0, others.1)
Fielded-cons c (t, type_name, d) (fields, e) f {name} ident (i, x, typed) (j, y, all) p q r = (
  j,
  Extends-trans c d e x y,
  (
    (
      (name, p, ident),
      rw (q, r)
          (IsTyped-weaken (names d.nested) (names e.nested) t type_name (Extends-Includes d e y)
            typed),
    ),
    all,
  ),
)

mutual
  unfolding map_complex_type_to_protobuf field_descriptor

  pub map_complex-Mapped :
      (ct : ComplexType) (path : String) (c : MessageCollector)
      → IsCollector c
      → ForOk (Mapped c) (map_complex_type_to_protobuf ct path c)
  map_complex-Mapped (primitive p) path c i =
      (i, Extends-refl c, inr (primitive_no_message p, refl))
  map_complex-Mapped (struct fields) path c i =
      struct-Mapped fields path c i
        (λ name. struct_fields-Fielded name fields 0 new new-IsCollector)
  map_complex-Mapped (array (primitive p)) path c i =
      (i, Extends-refl c, inr (primitive_no_message p, refl))
  map_complex-Mapped (array (struct fields)) path c i =
      struct-Mapped fields (append (sanitize_message_name path) "_element") c i
        (λ name. struct_fields-Fielded name fields 0 new new-IsCollector)
  map_complex-Mapped (array (array element)) path c i = tt
  map_complex-Mapped (array (map key value)) path c i = tt
  map_complex-Mapped (map key (primitive v)) path c i =
      ForOk->>= (λ (p : PrimitiveType). Unit) (Mapped c) (validate_map_key key path) _
        (validate_map_key-ForOk key path)
        (λ k u.
          finish_map-Mapped (sanitize_message_name path) k (primitive_value v) c
            (sanitize_message_name-IsMessageName path) tt i)
  map_complex-Mapped (map key (struct fields)) path c i =
      let base = sanitize_message_name path in
      let named = sanitize_message_name-IsMessageName path in
      let fresh =
        unique_name-Fresh c (append base "Value")
          (IsMessageName-append base "Value" named (refl, (refl, (refl, (refl, (refl, tt)))))) in
      let name = (unique_name c (append base "Value")).0 in
      ForOk->>= (λ (p : PrimitiveType). Unit) (Mapped c) (validate_map_key key path) _
        (validate_map_key-ForOk key path)
        (λ k u.
          collect_value-Mapped base k c (unique_name c (append base "Value"))
            (with_fields name (struct_fields name fields 0 new)) named i fresh
            (with_fields-Built name (names c.nested) (struct_fields name fields 0 new) fresh.1
              (struct_fields-Fielded name fields 0 new new-IsCollector)))
  map_complex-Mapped (map key (array element)) path c i =
      ForOk->>= (λ (p : PrimitiveType). Unit) (Mapped c) (validate_map_key key path) _
        (validate_map_key-ForOk key path) (λ k u. tt)
  map_complex-Mapped (map key (map k v)) path c i =
      ForOk->>= (λ (p : PrimitiveType). Unit) (Mapped c) (validate_map_key key path) _
        (validate_map_key-ForOk key path) (λ k u. tt)

  struct_fields-Fielded :
      (message_name : String) (fs : StructFields) (index : ℕ) (c : MessageCollector)
      → IsCollector c
      → ForOk (Fielded c) (struct_fields message_name fs index c)
  struct_fields-Fielded message_name no_fields index c i = (i, Extends-refl c, tt)
  struct_fields-Fielded message_name (struct_field name ty nullable rest) index c i =
      ForOk->>= (λ (u : Unit). IsIdentifier name) (Fielded c) (validate_field_name name) _
        (validated name (validate_field_name name) refl)
        (λ u ident.
          ForOk->>= (Mapped c) (Fielded c)
            (map_complex_type_to_protobuf ty (append message_name (append "_" name)) c) _
            (map_complex-Mapped ty (append message_name (append "_" name)) c i)
            (λ mapped m.
              ForOk->>= (Fielded mapped.2) (Fielded c)
                (struct_fields message_name rest (index + 1) mapped.2) _
                (struct_fields-Fielded message_name rest (index + 1) mapped.2 m.0)
                (λ others o.
                  let field =
                    field_descriptor name (to_i32 (index + 1)) mapped.0 mapped.1 nullable
                      (is_list ty) in
                  Fielded-cons c mapped others field ident m o refl refl refl)))
