-- ===== src/Schema/Types.antt =====
-- rust/sdk/src/schema.rs: columns, types and errors.
use Prim.Native.String.{String}
use zerobus_sdk.Common.{Bool, List}
use zerobus_sdk.Common.Int.{ℤ}

pub record UcColumn : Type 0 where
  pub name : String
  pub type_name : String
  pub type_text : String
  pub type_json : String
  pub nullable : Bool
  pub position : ℤ

pub record UcTableSchema : Type 0 where
  pub name : String
  pub catalog_name : String
  pub schema_name : String
  pub columns : List UcColumn

-- The arguments of an error are in the order of the source's fields.
pub data SchemaError : Type 0 where
  invalid_field_name : String → String → SchemaError
  unsupported_type : String → SchemaError
  missing_type_json : String → SchemaError
  invalid_type_json : String → String → SchemaError
  invalid : String → SchemaError

pub data Result (E : Type 0) (A : Type 0) : Type 0 where
  ok : A → Result E A
  err : E → Result E A

infixl 5 ◌>>=◌
abbrev pub ◌>>=◌ : {E A B : Type 0} → Result E A → (A → Result E B) → Result E B
ok a >>= f = f a
err e >>= f = err e

infixl 5 ◌>>◌
abbrev pub ◌>>◌ : {E B : Type 0} → Result E Unit → Result E B → Result E B
m >> k = m >>= λ _. k

abbrev pub map_err : {E F A : Type 0} → (E → F) → Result E A → Result F A
map_err f (ok a) = ok a
map_err f (err e) = err (f e)

-- The property of the value where there is one.
abbrev pub ForOk : {E A : Type 0} → (A → Type 0) → Result E A → Type 0
ForOk P (ok a) = P a
ForOk P (err e) = Unit

pub any-ForOk : {E A : Type 0} (m : Result E A) → ForOk (λ (a : A). Unit) m
any-ForOk (ok a) = tt
any-ForOk (err e) = tt

pub ForOk->>= :
    {E A B : Type 0} (P : A → Type 0) (Q : B → Type 0) (m : Result E A) (f : A → Result E B)
    → ForOk P m
    → ((a : A) → P a → ForOk Q (f a))
    → ForOk Q (m >>= f)
ForOk->>= P Q (ok a) f h k = k a h
ForOk->>= P Q (err e) f h k = tt

pub data PrimitiveType : Type 0 where
  string long integer short byte double float boolean binary timestamp : PrimitiveType
  timestamp_ntz date decimal variant : PrimitiveType

mutual
  pub data ComplexType : Type 0 where
    primitive : PrimitiveType → ComplexType
    struct : StructFields → ComplexType
    array : ComplexType → ComplexType
    map : ComplexType → ComplexType → ComplexType

  -- The fields of a struct: the name, type and nullability of each.
  pub data StructFields : Type 0 where
    no_fields : StructFields
    struct_field : String → ComplexType → Bool → StructFields → StructFields

-- What serde reads from the JSON of a type.
mutual
  pub data TypeRef : Type 0 where
    primitive : String → TypeRef
    struct : StructFieldsJson → TypeRef
    array : TypeRef → TypeRef
    map : TypeRef → TypeRef → TypeRef

  pub data StructFieldsJson : Type 0 where
    no_fields : StructFieldsJson
    struct_field : String → TypeRef → Bool → StructFieldsJson → StructFieldsJson

abbrev pub is_list : ComplexType → Bool
is_list (ComplexType.array element) = Bool.true
is_list (ComplexType.map key value) = Bool.true
is_list other = Bool.false
