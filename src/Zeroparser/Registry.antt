-- ===== src/Zeroparser/Registry.antt =====
-- rust/sdk/src/zeroparser/registry.rs: descriptors with their fields prepared for the parser.
pub mod Collect
use Prim.Native.String.{String, ◌++◌ as append}
use text.Mathlib.Text.{◌==◌ as str_eq}
use text.Mathlib.TextEquality.{eq_iff}
use zerobus_sdk.Common.{
  ℕ, zero, suc, ◌+◌, Bool, true, false, not, ◌&&◌, List, [], ◌∷◌, ◌++◌, Option, none, some,
  get_elem?, set, if◌then◌else◌, replicate,
}
use zerobus_sdk.Common.Int.{ℤ, pos, as_usize, eq_ℤ, ltb_ℤ}
use zerobus_sdk.Common.Assoc.{KeyEq, lookup, insert as map_insert}
use zerobus_sdk.Zeroparser.Types.{FieldType}
use zerobus_sdk.Zeroparser.SparseFieldMap
use zerobus_sdk.Zeroparser.SparseFieldMap.{SparseFieldMap, max_inline_capacity}

abbrev pub string_eq : KeyEq String
string_eq = record { beq = str_eq; beq_iff = eq_iff }

abbrev label_repeated : ℤ
label_repeated = pos 3

-- `prost_types::FieldDescriptorProto`; `type` is what its accessor `r#type()` returns.
pub record FieldDescriptorProto : Type 0 where
  pub name : Option String
  pub number : Option ℤ
  pub label : Option ℤ
  pub type : FieldType
  pub type_name : Option String
  pub oneof_index : Option ℤ
  pub json_name : Option String
  pub proto3_optional : Option Bool

-- `prost_types::DescriptorProto`: its name, fields, nested types, the number of its oneof
-- declarations, and its options, of which `map_entry` is read.
mutual
  pub data DescriptorProto : Type 0 where
    descriptor_proto :
        Option String
        → List FieldDescriptorProto
        → DescriptorProtos
        → ℕ
        → Option (Option Bool)
        → DescriptorProto

  pub data DescriptorProtos : Type 0 where
    nil : DescriptorProtos
    cons : DescriptorProto → DescriptorProtos → DescriptorProtos

pub record FieldInfo : Type 0 where
  pub storage_index : ℕ
  pub oneof_index : Option ℤ
  pub field_type : FieldType
  pub is_scalar : Bool
  pub is_repeated : Bool
  pub name : String
  pub type_name : Option String

pub record OneofMember : Type 0 where
  pub is_scalar : Bool
  pub storage_index : ℕ

pub record DescriptorWithFieldCache : Type 0 where
  pub fields : SparseFieldMap FieldInfo
  pub is_map_entry : Bool
  pub scalar_count : ℕ
  pub complex_count : ℕ
  pub oneof_groups : List (List OneofMember)

abbrev pub is_message : FieldType → Bool
is_message FieldType.message = true
is_message other = false

abbrev pub unwrap_or {ℓ} : {A : Type ℓ} → A → Option A → A
unwrap_or d none = d
unwrap_or d (some a) = a

-- One step of `filter(n < MAX_INLINE_CAPACITY).max()`.
unfoldable pub max_inline : Option ℤ → Option ℤ → Option ℤ
max_inline none best = best
max_inline (some n) none = if ltb_ℤ n (pos max_inline_capacity) then some n else none
max_inline (some n) (some m) =
    if ltb_ℤ n (pos max_inline_capacity) && ltb_ℤ m n then some n else some m

-- The greatest number below the inline capacity, or 0 if there is none.
unfoldable pub max_inline_field_num : List FieldDescriptorProto → Option ℤ → ℤ
unfolding max_inline
max_inline_field_num [] best = unwrap_or (pos 0) best
max_inline_field_num (f ∷ fs) best = max_inline_field_num fs (max_inline f.number best)

-- The variables of the loop of `from_descriptor`.
pub record Building : Type 0 where
  pub fields : SparseFieldMap FieldInfo
  pub scalar_count : ℕ
  pub complex_count : ℕ
  pub oneof_groups : List (List OneofMember)

abbrev pub is_repeated_label : Option ℤ → Bool
is_repeated_label none = false
is_repeated_label (some l) = eq_ℤ l label_repeated

abbrev pub is_true : Option Bool → Bool
is_true (some true) = true
is_true other = false

-- `groups.get_mut(i)`, and `push` on the group if there is one.
unfoldable pub push_member : List (List OneofMember) → ℕ → OneofMember → List (List OneofMember)
push_member [] i m = []
push_member (g ∷ gs) zero m = (g ++ m ∷ []) ∷ gs
push_member (g ∷ gs) (suc i) m = g ∷ push_member gs i m

unfoldable pub register : Option ℤ → OneofMember → List (List OneofMember) → List (List OneofMember)
register none member groups = groups
register (some i) member groups = push_member groups (as_usize i) member

-- The body of the loop for a field that has a number.
unfoldable pub add_numbered : Building → FieldDescriptorProto → ℤ → Building
add_numbered b field num =
    let is_repeated = is_repeated_label field.label in
    let is_scalar = not is_repeated && not (is_message field.type) in
    let storage_index = if is_scalar then b.scalar_count else b.complex_count in
    let oneof_index = if is_true field.proto3_optional then none else field.oneof_index in
    let info : FieldInfo = record {
      storage_index = storage_index;
      oneof_index = oneof_index;
      field_type = field.type;
      is_scalar = is_scalar;
      is_repeated = is_repeated;
      name = unwrap_or "" field.name;
      type_name = field.type_name;
    } in
    record {
      fields = (SparseFieldMap.insert b.fields num info).0;
      scalar_count = if is_scalar then b.scalar_count + 1 else b.scalar_count;
      complex_count = if is_scalar then b.complex_count else b.complex_count + 1;
      oneof_groups =
          register oneof_index (record { is_scalar = is_scalar; storage_index = storage_index })
            b.oneof_groups;
    }

unfoldable pub add_field : Building → FieldDescriptorProto → Building
add_field b field = elim field.number [ none ↦ b | some num ↦ add_numbered b field num ]

unfoldable pub add_fields : Building → List FieldDescriptorProto → Building
add_fields b [] = b
add_fields b (f ∷ fs) = add_fields (add_field b f) fs

abbrev unwrap_options : Option (Option Bool) → Bool
unwrap_options (some (some b)) = b
unwrap_options other = false

unfoldable pub from_descriptor : DescriptorProto → DescriptorWithFieldCache
from_descriptor (descriptor_proto name field nested_type oneof_decl options) =
    let start : Building = record {
      fields = SparseFieldMap.new (max_inline_field_num field none);
      scalar_count = 0;
      complex_count = 0;
      oneof_groups = replicate oneof_decl [];
    } in
    let b = add_fields start field in
    record {
      fields = b.fields;
      is_map_entry = unwrap_options options;
      scalar_count = b.scalar_count;
      complex_count = b.complex_count;
      oneof_groups = b.oneof_groups;
    }

unfoldable pub get_field : DescriptorWithFieldCache → ℤ → Option FieldInfo
get_field d field_num = SparseFieldMap.get d.fields field_num

unfoldable pub get_oneof_group : DescriptorWithFieldCache → ℤ → List OneofMember
get_oneof_group d oneof_index = unwrap_or [] (get_elem? d.oneof_groups (as_usize oneof_index))

pub record MessageRegistry : Type 0 where
  pub messages : List (String × DescriptorWithFieldCache)
  pub root_descriptor : DescriptorWithFieldCache

unfoldable pub get : MessageRegistry → String → Option DescriptorWithFieldCache
get r type_name = lookup string_eq type_name r.messages

abbrev pub full_name : String → String → String
full_name prefix name =
    if str_eq prefix "" then append "." name else append (append prefix ".") name

-- The nested types are pushed last to first, so that the first of them is popped next.
unfoldable pub push_nested :
    DescriptorProtos → String → List (DescriptorProto × String) → List (DescriptorProto × String)
push_nested nil prefix stack = stack
push_nested (cons d ds) prefix stack = (d, prefix) ∷ push_nested ds prefix stack

abbrev pub Messages : Type 0
Messages = List (String × DescriptorWithFieldCache)

-- The loop of `collect_messages` on fuel; the head of the list is the top of the stack. `none`
-- means that the fuel ran out.
unfoldable pub collect_loop : ℕ → List (DescriptorProto × String) → Messages → Option Messages
collect_loop fuel [] acc = some acc
collect_loop zero (top ∷ stack) acc = none
collect_loop (suc fuel)
      ((descriptor_proto name field nested_type oneof_decl options, prefix) ∷ stack) acc =
    let full = full_name prefix (unwrap_or "" name) in
    let desc = descriptor_proto name field nested_type oneof_decl options in
    collect_loop fuel (push_nested nested_type full stack)
      (map_insert string_eq full (from_descriptor desc) acc)

-- The number of message types in a descriptor: the rounds of the loop.
unfoldable mutual
  pub size : DescriptorProto → ℕ
  size (descriptor_proto name field nested_type oneof_decl options) = suc (sizes nested_type)

  pub sizes : DescriptorProtos → ℕ
  sizes nil = 0
  sizes (cons d ds) = size d + sizes ds

unfoldable pub collect_messages : DescriptorProto → Messages → Option Messages
collect_messages root acc = collect_loop (size root) ((root, "") ∷ []) acc

unfoldable pub registry_from_descriptor : DescriptorProto → Option MessageRegistry
registry_from_descriptor root = elim (collect_messages root []) [
  | none ↦ none
  | some messages ↦ some (record { messages = messages; root_descriptor = from_descriptor root })
]
