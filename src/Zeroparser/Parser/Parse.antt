-- ===== src/Zeroparser/Parser/Parse.antt =====
-- `ParsedMessage::parse` and the functions that it calls.
use Prim.Native.String.{String}
use zerobus_sdk.Common.{
  ℕ, zero, suc, Bool, true, false, ◌&&◌, List, [], ◌∷◌, Option, none, some, length, if◌then◌else◌,
}
use zerobus_sdk.Common.Int.{ℤ, eq_ℤ}
use zerobus_sdk.Zeroparser.Errors.{
  ParseResult, ok, err, stuck, ◌>>=◌, max_nesting_depth_exceeded, unknown_type_name,
  complex_type_mismatch, invalid_map_key_type,
}
use zerobus_sdk.Zeroparser.Wire.{WireField, WireValue, try_parse_field}
use zerobus_sdk.Zeroparser.Wire.Accessors.{try_as_bytes}
use zerobus_sdk.Zeroparser.Types.{
  FieldType, FieldValueRef, MapKeyRef, convert_scalar_value, default_value_for_type, from_bytes,
  expand_into, is_packable_type, from_field_value, max_nesting_depth, map_entry_key_field_num,
  map_entry_value_field_num,
}
use zerobus_sdk.Zeroparser.Registry.{
  DescriptorWithFieldCache, FieldInfo, MessageRegistry, get_field, get, is_message,
}
use zerobus_sdk.Zeroparser.Parser.Message.{
  ParsedMessage, ComplexType, empty, repeated_scalar, ParsedMapValue, scalar, nested, complex,
  with_descriptor, index_slot, set_complex_slot, as_str, set_scalar, add_repeated_scalar,
  add_repeated_message, add_map_entry, clear_oneof_siblings,
}
use zerobus_sdk.Zeroparser.Parser.Merge.{merge_from, merge_or_set_message}

-- `while !remaining.is_empty()` over the fields of a buffer, with the body as an argument, on fuel:
-- each field takes two bytes at least.
unfoldable pub field_loop {ℓ} :
    {S : Type ℓ} → (WireField → S → ParseResult S) → ℕ → List ℕ → S → ParseResult S
field_loop body fuel [] s = ok s
field_loop body zero (b ∷ remaining) s = stuck
field_loop body (suc fuel) (b ∷ remaining) s = do
  (field, rest) ← try_parse_field (b ∷ remaining)
  s' ← body field s
  field_loop body fuel rest s'

-- `parse_internal` at the next depth: it takes the name of a type and the bytes.
abbrev pub NestedParser : Type 0
NestedParser = String → List ℕ → ParseResult ParsedMessage

abbrev pub or_empty : Option String → String
or_empty none = ""
or_empty (some s) = s

unfoldable pub clear_siblings : ParsedMessage → FieldInfo → ParseResult ParsedMessage
clear_siblings m info = elim info.oneof_index [
  | none ↦ ok m
  | some idx ↦ clear_oneof_siblings m idx info
]

-- The key and the value that a map entry has had so far.
abbrev pub EntrySoFar : Type 0
EntrySoFar = Option FieldValueRef × Option ParsedMapValue

abbrev pub type_or_bytes : Option FieldInfo → FieldType
type_or_bytes none = FieldType.bytes
type_or_bytes (some info) = info.field_type

abbrev pub type_name_or_empty : Option FieldInfo → String
type_name_or_empty none = ""
type_name_or_empty (some info) = or_empty info.type_name

-- A new message value of an entry: repeated values are merged.
unfoldable pub merge_value : Option ParsedMapValue → ParsedMessage → ParseResult ParsedMapValue
merge_value (some (nested existing)) new_msg = do m ← merge_from existing new_msg; ok (nested m)
merge_value (some (scalar v)) new_msg = ok (nested new_msg)
merge_value none new_msg = ok (nested new_msg)

module _ (parse_nested : NestedParser) (registry : MessageRegistry) where
  -- The body of the loop of `parse_map_entry_recursive`.
  unfoldable pub entry_field :
      DescriptorWithFieldCache → WireField → EntrySoFar → ParseResult EntrySoFar
  entry_field descriptor field (key, value) = elim (get_field descriptor field.field_num) [
    | none ↦ ok (key, value)
    | some info ↦
        if eq_ℤ field.field_num map_entry_key_field_num
        then (do
          k ← convert_scalar_value info.field_type field.value map_entry_key_field_num
          ok (some k, value))
        else if eq_ℤ field.field_num map_entry_value_field_num
        then (if is_message info.field_type
            then (do
              nested_bytes ← try_as_bytes field.value field.field_num
              new_value ← parse_nested (or_empty info.type_name) nested_bytes
              value' ← merge_value value new_value
              ok (key, some value'))
            else do
              v ← convert_scalar_value info.field_type field.value map_entry_value_field_num
              ok (key, some (scalar v)))
        else ok (key, value)
  ]

  unfoldable pub entry_value : Option FieldInfo → Option ParsedMapValue → ParseResult ParsedMapValue
  entry_value value_info (some v) = ok v
  entry_value value_info none =
      if is_message (type_or_bytes value_info)
      then (do m ← parse_nested (type_name_or_empty value_info) []; ok (nested m))
      else ok (scalar (default_value_for_type (type_or_bytes value_info)))

  abbrev pub entry_key : Option FieldInfo → Option FieldValueRef → FieldValueRef
  entry_key key_info (some k) = k
  entry_key key_info none = default_value_for_type (type_or_bytes key_info)

  abbrev pub map_key : Option MapKeyRef → ParseResult MapKeyRef
  map_key (some k) = ok k
  map_key none = err (invalid_map_key_type map_entry_key_field_num)

  unfoldable pub parse_map_entry :
      List ℕ → DescriptorWithFieldCache → ParseResult (MapKeyRef × ParsedMapValue)
  parse_map_entry bytes descriptor = do
    (key, value) ← field_loop (entry_field descriptor) (length bytes) bytes (none, none)
    value' ← entry_value (get_field descriptor map_entry_value_field_num) value
    key' ← map_key (from_field_value (entry_key (get_field descriptor map_entry_key_field_num) key))
    ok (key', value')

  -- The branch of a message field that is no map entry.
  unfoldable pub nested_field : FieldInfo → ℤ → List ℕ → ParsedMessage → ParseResult ParsedMessage
  nested_field info field_num nested_bytes result = do
    m ← parse_nested (or_empty info.type_name) nested_bytes
    if info.is_repeated
        then add_repeated_message result info field_num m
        else do result' ← clear_siblings result info; merge_or_set_message result' info m

  abbrev pub map_entry_descriptor :
      Option DescriptorWithFieldCache → Option DescriptorWithFieldCache
  map_entry_descriptor none = none
  map_entry_descriptor (some d) = if d.is_map_entry then some d else none

  unfoldable pub message_field : FieldInfo → WireField → ParsedMessage → ParseResult ParsedMessage
  message_field info field result = do
    nested_bytes ← try_as_bytes field.value field.field_num
    elim (map_entry_descriptor (get registry (or_empty info.type_name))) [
      | some nested_desc ↦ do
        (key, value) ← parse_map_entry nested_bytes nested_desc
        add_map_entry result info field.field_num key value
      | none ↦ nested_field info field.field_num nested_bytes result
    ]

  abbrev pub is_len : WireValue → Bool
  is_len (WireValue.len bytes) = true
  is_len other = false

  abbrev pub packed_dest : ComplexType → ℤ → ParseResult (List FieldValueRef)
  packed_dest empty n = ok []
  packed_dest (repeated_scalar vs) n = ok vs
  packed_dest other n = err (complex_type_mismatch "RepeatedScalar" (as_str other) n)

  unfoldable pub packed_field : FieldInfo → WireField → ParsedMessage → ParseResult ParsedMessage
  packed_field info field result = do
    bytes ← try_as_bytes field.value field.field_num
    packed ← from_bytes bytes info.field_type field.field_num
    c ← index_slot (complex result) info.storage_index
    dest ← packed_dest c field.field_num
    values ← expand_into packed info.field_type dest field.field_num
    set_complex_slot result info.storage_index (repeated_scalar values)

  unfoldable pub repeated_field : FieldInfo → WireField → ParsedMessage → ParseResult ParsedMessage
  repeated_field info field result =
      if is_packable_type info.field_type && is_len field.value
      then packed_field info field result
      else do
        value ← convert_scalar_value info.field_type field.value field.field_num
        add_repeated_scalar result info field.field_num value

  unfoldable pub scalar_field : FieldInfo → WireField → ParsedMessage → ParseResult ParsedMessage
  scalar_field info field result = do
    value ← convert_scalar_value info.field_type field.value field.field_num
    result' ← clear_siblings result info
    set_scalar result' info value

  -- The body of the loop of `parse_internal`.
  unfoldable pub message_body :
      DescriptorWithFieldCache → WireField → ParsedMessage → ParseResult ParsedMessage
  message_body descriptor field result = elim (get_field descriptor field.field_num) [
    | none ↦ ok result
    | some info ↦
        if info.is_scalar
        then scalar_field info field result
        else if is_message info.field_type
        then message_field info field result
        else repeated_field info field result
  ]

  unfoldable pub parse_with : DescriptorWithFieldCache → List ℕ → ParseResult ParsedMessage
  parse_with descriptor bytes =
      field_loop (message_body descriptor) (length bytes) bytes (with_descriptor descriptor)

abbrev pub find_descriptor : MessageRegistry → Option String → ParseResult DescriptorWithFieldCache
find_descriptor registry none = ok registry.root_descriptor
find_descriptor registry (some name) = elim (get registry name) [
  | none ↦ err (unknown_type_name name)
  | some d ↦ ok d
]

-- `levels` is MAX_NESTING_DEPTH + 1 - depth; at 0 the depth exceeds the limit.
unfoldable pub parse_internal :
    ℕ → MessageRegistry → Option String → List ℕ → ParseResult ParsedMessage
parse_internal zero registry type_name bytes = err (max_nesting_depth_exceeded max_nesting_depth)
parse_internal (suc levels) registry type_name bytes = do
  descriptor ← find_descriptor registry type_name
  parse_with (λ name nested_bytes. parse_internal levels registry (some name) nested_bytes) registry
      descriptor bytes

unfoldable pub parse : List ℕ → MessageRegistry → ParseResult ParsedMessage
parse bytes registry = parse_internal (suc max_nesting_depth) registry none bytes
