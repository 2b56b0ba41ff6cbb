-- ===== src/Schema/Supported.antt =====
-- Which types of columns have a descriptor and an Arrow field.
use Prim.Native.Char.{code}
use Prim.Native.String.{String, ◌++◌ as append}
use zerobus_sdk.Common.{ℕ, ◌+◌, ◌≡◌, refl, ap, ◌∙◌, arith, Bool, true, false, not, ◌&&◌, List}
use zerobus_sdk.Zeroparser.Registry.{FieldDescriptorProto}
use zerobus_sdk.Schema.Types.{
  SchemaError, Result, ok, err, ◌>>=◌, PrimitiveType, string, long, integer, short, byte, double,
  float, boolean, binary, timestamp, timestamp_ntz, date, decimal, variant, ComplexType, primitive,
  struct, array, map, StructFields, no_fields, struct_field,
}
use zerobus_sdk.Schema.Names.{is_digit, all_words, validate_field_name, MessageCollector, new}
use zerobus_sdk.Schema.FieldTypes.{is_valid_map_key, validate_map_key, finish_map}
use zerobus_sdk.Schema.Descriptor.{with_fields, map_complex_type_to_protobuf, struct_fields}
use zerobus_sdk.Schema.ArrowFields.{
  ArrowSchemaOptions, is_variant, refuse_variant, validate_arrow_map_key,
  complex_type_to_arrow_field, child_fields,
}

abbrev pub is_ok : {E A : Type 0} → Result E A → Bool
is_ok (ok a) = true
is_ok (err e) = false

unfoldable pub is_identifier : String → Bool
unfolding all_words
is_identifier String.[] = false
is_identifier (String.◌∷◌ c s) = not (is_digit (code c)) && all_words (String.◌∷◌ c s)

abbrev pub is_key : (PrimitiveType → Bool) → ComplexType → Bool
is_key key (primitive p) = key p
is_key key other = false

-- An element or a value is a primitive or a supported struct, a key one that `key` takes, and the
-- fields of structs have identifiers for their names.
unfoldable mutual
  pub supported : (PrimitiveType → Bool) → ComplexType → Bool
  supported key (primitive p) = true
  supported key (struct fields) = fields_supported key fields
  supported key (array (primitive p)) = true
  supported key (array (struct fields)) = fields_supported key fields
  supported key (array (array element)) = false
  supported key (array (map k v)) = false
  supported key (map k (primitive p)) = is_key key k
  supported key (map k (struct fields)) = is_key key k && fields_supported key fields
  supported key (map k (array element)) = false
  supported key (map k (map a b)) = false

  pub fields_supported : (PrimitiveType → Bool) → StructFields → Bool
  fields_supported key no_fields = true
  fields_supported key (struct_field name ty nullable rest) =
      is_identifier name && (supported key ty && fields_supported key rest)

-- The types of the keys in a descriptor: integers, Booleans, strings, and also dates, timestamps,
-- decimals and variants.
unfoldable pub is_descriptor_map_key : PrimitiveType → Bool
is_descriptor_map_key string = true
is_descriptor_map_key long = true
is_descriptor_map_key integer = true
is_descriptor_map_key short = true
is_descriptor_map_key byte = true
is_descriptor_map_key double = false
is_descriptor_map_key float = false
is_descriptor_map_key boolean = true
is_descriptor_map_key binary = false
is_descriptor_map_key timestamp = true
is_descriptor_map_key timestamp_ntz = true
is_descriptor_map_key date = true
is_descriptor_map_key decimal = true
is_descriptor_map_key variant = true

-- The types of the keys in an Arrow schema: the same without variants.
unfoldable pub is_arrow_map_key : PrimitiveType → Bool
unfolding is_descriptor_map_key
is_arrow_map_key variant = false
is_arrow_map_key other = is_descriptor_map_key other

is_valid_map_key_lem : (p : PrimitiveType) → is_valid_map_key p ≡ is_descriptor_map_key p
unfolding is_valid_map_key is_descriptor_map_key
is_valid_map_key_lem string = refl
is_valid_map_key_lem long = refl
is_valid_map_key_lem integer = refl
is_valid_map_key_lem short = refl
is_valid_map_key_lem byte = refl
is_valid_map_key_lem double = refl
is_valid_map_key_lem float = refl
is_valid_map_key_lem boolean = refl
is_valid_map_key_lem binary = refl
is_valid_map_key_lem timestamp = refl
is_valid_map_key_lem timestamp_ntz = refl
is_valid_map_key_lem date = refl
is_valid_map_key_lem decimal = refl
is_valid_map_key_lem variant = refl

is_arrow_map_key_lem :
    (p : PrimitiveType) → is_descriptor_map_key p && not (is_variant p) ≡ is_arrow_map_key p
unfolding is_arrow_map_key is_descriptor_map_key
is_arrow_map_key_lem string = refl
is_arrow_map_key_lem long = refl
is_arrow_map_key_lem integer = refl
is_arrow_map_key_lem short = refl
is_arrow_map_key_lem byte = refl
is_arrow_map_key_lem double = refl
is_arrow_map_key_lem float = refl
is_arrow_map_key_lem boolean = refl
is_arrow_map_key_lem binary = refl
is_arrow_map_key_lem timestamp = refl
is_arrow_map_key_lem timestamp_ntz = refl
is_arrow_map_key_lem date = refl
is_arrow_map_key_lem decimal = refl
is_arrow_map_key_lem variant = refl

pub is_ok->>= :
    {E A B : Type 0} (m : Result E A) (f : A → Result E B) (b : Bool)
    → ((a : A) → is_ok (f a) ≡ b)
    → is_ok (m >>= f) ≡ is_ok m && b
is_ok->>= (ok a) f b h = h a
is_ok->>= (err e) f b h = refl

pub is_ok-validate_field_name :
    (name : String) → is_ok (validate_field_name name) ≡ is_identifier name
unfolding validate_field_name is_identifier
is_ok-validate_field_name String.[] = refl
is_ok-validate_field_name (String.◌∷◌ c s) = ground arith

is_ok-validate_map_key :
    (key : ComplexType) (path : String)
    → is_ok (validate_map_key key path) ≡ is_key is_descriptor_map_key key
unfolding validate_map_key
is_ok-validate_map_key (primitive p) path = ground (arith, is_valid_map_key_lem p)
is_ok-validate_map_key (struct _) path = refl
is_ok-validate_map_key (array element) path = refl
is_ok-validate_map_key (map k v) path = refl

is_ok-validate_arrow_map_key :
    (key : ComplexType) (path : String)
    → is_ok (validate_arrow_map_key key path) ≡ is_key is_arrow_map_key key
unfolding validate_arrow_map_key validate_map_key refuse_variant
is_ok-validate_arrow_map_key (primitive p) path =
    ground (arith, is_valid_map_key_lem p, is_arrow_map_key_lem p)
is_ok-validate_arrow_map_key (struct _) path = refl
is_ok-validate_arrow_map_key (array element) path = refl
is_ok-validate_arrow_map_key (map k v) path = refl

pub and_true : (b : Bool) → b && true ≡ b
and_true b = ground arith

and_false : (b : Bool) → b && false ≡ false
and_false b = ground arith

is_ok-with_fields :
    (name : String) (r : Result SchemaError (List FieldDescriptorProto × MessageCollector))
    → is_ok (with_fields name r) ≡ is_ok r
is_ok-with_fields name (ok a) = refl
is_ok-with_fields name (err e) = refl

mutual
  unfolding map_complex_type_to_protobuf supported finish_map

  -- The type of a column has a descriptor exactly when it is supported.
  pub is_ok-map_complex :
      (ct : ComplexType) (path : String) (c : MessageCollector)
      → is_ok (map_complex_type_to_protobuf ct path c) ≡ supported is_descriptor_map_key ct
  is_ok-map_complex (primitive p) path c = refl
  is_ok-map_complex (struct fields) path c =
      is_ok->>= (with_fields _ (struct_fields _ fields 0 new)) _ true (λ m. refl)
      ∙ and_true _
      ∙ is_ok-with_fields _ (struct_fields _ fields 0 new)
      ∙ is_ok-struct_fields _ fields 0 new
  is_ok-map_complex (array (primitive p)) path c = refl
  is_ok-map_complex (array (struct fields)) path c =
      is_ok->>= (with_fields _ (struct_fields _ fields 0 new)) _ true (λ m. refl)
      ∙ and_true _
      ∙ is_ok-with_fields _ (struct_fields _ fields 0 new)
      ∙ is_ok-struct_fields _ fields 0 new
  is_ok-map_complex (array (array element)) path c = refl
  is_ok-map_complex (array (map k v)) path c = refl
  is_ok-map_complex (map key (primitive v)) path c =
      is_ok->>= (validate_map_key key path) _ true (λ k. refl)
      ∙ and_true _
      ∙ is_ok-validate_map_key key path
  is_ok-map_complex (map key (struct fields)) path c =
      is_ok->>= (validate_map_key key path) _ (fields_supported is_descriptor_map_key fields) (λ k.
        is_ok->>= (with_fields _ (struct_fields _ fields 0 new)) _ true (λ m. refl)
        ∙ and_true _
        ∙ is_ok-with_fields _ (struct_fields _ fields 0 new)
        ∙ is_ok-struct_fields _ fields 0 new)
      ∙ ap (λ b. b && fields_supported is_descriptor_map_key fields)
          (is_ok-validate_map_key key path)
  is_ok-map_complex (map key (array element)) path c =
      is_ok->>= (validate_map_key key path) _ false (λ k. refl) ∙ and_false _
  is_ok-map_complex (map key (map k v)) path c =
      is_ok->>= (validate_map_key key path) _ false (λ k. refl) ∙ and_false _

  is_ok-struct_fields :
      (message_name : String) (fs : StructFields) (index : ℕ) (c : MessageCollector)
      → is_ok (struct_fields message_name fs index c) ≡ fields_supported is_descriptor_map_key fs
  is_ok-struct_fields message_name no_fields index c = refl
  is_ok-struct_fields message_name (struct_field name ty nullable rest) index c =
      is_ok->>= (validate_field_name name) _
        (supported is_descriptor_map_key ty && fields_supported is_descriptor_map_key rest)
        (λ u.
          is_ok->>= (map_complex_type_to_protobuf ty (append message_name (append "_" name)) c) _
            (fields_supported is_descriptor_map_key rest)
            (λ mapped.
              is_ok->>= (struct_fields message_name rest (index + 1) mapped.2) _ true (λ o. refl)
              ∙ and_true _
              ∙ is_ok-struct_fields message_name rest (index + 1) mapped.2)
          ∙ ap (λ b. b && fields_supported is_descriptor_map_key rest)
              (is_ok-map_complex ty (append message_name (append "_" name)) c))
      ∙ ap
          (λ b.
            b
            && (supported is_descriptor_map_key ty && fields_supported is_descriptor_map_key rest))
          (is_ok-validate_field_name name)

mutual
  unfolding complex_type_to_arrow_field supported

  -- It has an Arrow field exactly when it is supported and no key of a map is a variant.
  pub is_ok-complex_type_to_arrow_field :
      (name : String) (ct : ComplexType) (nullable : Bool) (options : ArrowSchemaOptions)
      → is_ok (complex_type_to_arrow_field name ct nullable options) ≡ supported is_arrow_map_key ct
  is_ok-complex_type_to_arrow_field name (primitive p) nullable options = refl
  is_ok-complex_type_to_arrow_field name (struct fields) nullable options =
      is_ok->>= (child_fields fields options) _ true (λ m. refl)
      ∙ and_true _
      ∙ is_ok-child_fields fields options
  is_ok-complex_type_to_arrow_field name (array (primitive p)) nullable options = refl
  is_ok-complex_type_to_arrow_field name (array (struct fields)) nullable options =
      is_ok->>= (complex_type_to_arrow_field "item" (struct fields) true options) _ true (λ m. refl)
      ∙ and_true _
      ∙ is_ok-complex_type_to_arrow_field "item" (struct fields) true options
  is_ok-complex_type_to_arrow_field name (array (array element)) nullable options = refl
  is_ok-complex_type_to_arrow_field name (array (map k v)) nullable options = refl
  is_ok-complex_type_to_arrow_field name (map key (primitive v)) nullable options =
      is_ok->>= (validate_arrow_map_key key name) _ true (λ k. refl)
      ∙ and_true _
      ∙ is_ok-validate_arrow_map_key key name
  is_ok-complex_type_to_arrow_field name (map key (struct fields)) nullable options =
      is_ok->>= (validate_arrow_map_key key name) _ (fields_supported is_arrow_map_key fields) (λ k.
        is_ok->>= (complex_type_to_arrow_field "values" (struct fields) true options) _ true
          (λ m. refl)
        ∙ and_true _
        ∙ is_ok-complex_type_to_arrow_field "values" (struct fields) true options)
      ∙ ap (λ b. b && fields_supported is_arrow_map_key fields)
          (is_ok-validate_arrow_map_key key name)
  is_ok-complex_type_to_arrow_field name (map key (array element)) nullable options =
      is_ok->>= (validate_arrow_map_key key name) _ false (λ k. refl) ∙ and_false _
  is_ok-complex_type_to_arrow_field name (map key (map k v)) nullable options =
      is_ok->>= (validate_arrow_map_key key name) _ false (λ k. refl) ∙ and_false _

  is_ok-child_fields :
      (fs : StructFields) (options : ArrowSchemaOptions)
      → is_ok (child_fields fs options) ≡ fields_supported is_arrow_map_key fs
  is_ok-child_fields no_fields options = refl
  is_ok-child_fields (struct_field name ty nullable rest) options =
      is_ok->>= (validate_field_name name) _
        (supported is_arrow_map_key ty && fields_supported is_arrow_map_key rest)
        (λ u.
          is_ok->>= (complex_type_to_arrow_field name ty nullable options) _
            (fields_supported is_arrow_map_key rest)
            (λ child.
              is_ok->>= (child_fields rest options) _ true (λ o. refl)
              ∙ and_true _
              ∙ is_ok-child_fields rest options)
          ∙ ap (λ b. b && fields_supported is_arrow_map_key rest)
              (is_ok-complex_type_to_arrow_field name ty nullable options))
      ∙ ap (λ b. b && (supported is_arrow_map_key ty && fields_supported is_arrow_map_key rest))
          (is_ok-validate_field_name name)
