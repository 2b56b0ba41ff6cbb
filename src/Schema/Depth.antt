-- ===== src/Schema/Depth.antt =====
-- The types that `type_ref_to_complex` takes: those that are not too deep.
use Prim.Native.String.{String}
use zerobus_sdk.Common.{
  ℕ, ◌+◌, ◌≤◌, max, ◌≡◌, refl, ◌∙◌, arith, Bool, true, ◌&&◌, leb, ltb, if◌then◌else◌, Bool-cases,
  inl, inr,
}
use zerobus_sdk.Schema.Types.{Result, TypeRef, StructFieldsJson}
use zerobus_sdk.Schema.TypeJson.{
  max_nesting_depth, parse_primitive_type, type_ref_to_complex, fields_to_complex, too_deep,
}
use zerobus_sdk.Schema.Supported.{is_ok, is_ok->>=, and_true}

-- How far below the type itself its deepest part is.
unfoldable mutual
  pub height : TypeRef → ℕ
  height (TypeRef.primitive s) = 0
  height (TypeRef.struct fs) = heights fs
  height (TypeRef.array element) = height element + 1
  height (TypeRef.map key value) = max (height key) (height value) + 1

  pub heights : StructFieldsJson → ℕ
  heights StructFieldsJson.no_fields = 0
  heights (StructFieldsJson.struct_field name ty nullable rest) = max (height ty + 1) (heights rest)

-- Every primitive type in it is one that the code knows.
unfoldable mutual
  pub known : TypeRef → Bool
  known (TypeRef.primitive s) = is_ok (parse_primitive_type s)
  known (TypeRef.struct fs) = all_known fs
  known (TypeRef.array element) = known element
  known (TypeRef.map key value) = known key && known value

  pub all_known : StructFieldsJson → Bool
  all_known StructFieldsJson.no_fields = true
  all_known (StructFieldsJson.struct_field name ty nullable rest) = known ty && all_known rest

is_ok-if :
    {A : Type 0} (level x : ℕ) (m : Result String A) (k : Bool)
    → level ≤ x
    → (leb level max_nesting_depth ≡ true → is_ok m ≡ leb x max_nesting_depth && k)
    → is_ok (if ltb max_nesting_depth level then too_deep else m) ≡ leb x max_nesting_depth && k
is_ok-if level x m k h e = elim (Bool-cases (ltb max_nesting_depth level)) [
  | inl deep ↦ rw deep (ground (arith, h, deep))
  | inr fits ↦ rw fits (e (ground (arith, fits)))
]

mutual
  unfolding type_ref_to_complex height known

  is_ok-type_ref :
      (t : TypeRef) (level : ℕ)
      → is_ok (type_ref_to_complex t level) ≡ leb (level + height t) max_nesting_depth && known t
  is_ok-type_ref (TypeRef.primitive s) level =
      is_ok-if level (level + 0) _ (is_ok (parse_primitive_type s)) (omega arith) (λ fits.
        is_ok->>= (parse_primitive_type s) _ true (λ p. refl) ∙ and_true _ ∙ ground (arith, fits))
  is_ok-type_ref (TypeRef.struct fs) level =
      is_ok-if level (level + heights fs) _ (all_known fs) (omega arith) (λ fits.
        is_ok->>= (fields_to_complex fs (level + 1)) _ true (λ p. refl)
        ∙ and_true _
        ∙ is_ok-fields fs level fits)
  is_ok-type_ref (TypeRef.array element) level =
      is_ok-if level (level + (height element + 1)) _ (known element) (omega arith) (λ fits.
        is_ok->>= (type_ref_to_complex element (level + 1)) _ true (λ p. refl)
        ∙ and_true _
        ∙ is_ok-type_ref element (level + 1)
        ∙ ground arith)
  is_ok-type_ref (TypeRef.map key value) level =
      is_ok-if level (level + (max (height key) (height value) + 1)) _ (known key && known value)
        (omega arith)
        (λ fits.
          is_ok->>= (type_ref_to_complex key (level + 1)) _
            (is_ok (type_ref_to_complex value (level + 1)))
            (λ a. is_ok->>= (type_ref_to_complex value (level + 1)) _ true (λ b. refl) ∙ and_true _)
          ∙ ground (arith, is_ok-type_ref key (level + 1), is_ok-type_ref value (level + 1)))

  is_ok-fields :
      (fs : StructFieldsJson) (level : ℕ)
      → leb level max_nesting_depth ≡ true
      → is_ok (fields_to_complex fs (level + 1))
        ≡ leb (level + heights fs) max_nesting_depth && all_known fs
  is_ok-fields StructFieldsJson.no_fields level h = ground arith
  is_ok-fields (StructFieldsJson.struct_field name ty nullable rest) level h =
      is_ok->>= (type_ref_to_complex ty (level + 1)) _ (is_ok (fields_to_complex rest (level + 1)))
        (λ a. is_ok->>= (fields_to_complex rest (level + 1)) _ true (λ b. refl) ∙ and_true _)
      ∙ ground (arith, is_ok-type_ref ty (level + 1), is_ok-fields rest level h)

-- A type that serde has read is taken exactly when nothing in it lies more than 100 levels below the
-- top and the code knows every primitive type in it.
pub type_ref_to_complex_accepts :
    (t : TypeRef) → is_ok (type_ref_to_complex t 0) ≡ leb (height t) max_nesting_depth && known t
type_ref_to_complex_accepts t = is_ok-type_ref t 0 ∙ ground arith
