-- ===== src/Zeroparser/Parser/Termination.antt =====
-- The parser ends on every input: each loop over the fields of a buffer has fuel enough, and the
-- recursion stops at the limit on the depth.
use Prim.Native.String.{String}
use zerobus_sdk.Common.{
  ℕ, zero, suc, ◌≤◌, arith, Bool, true, false, List, [], ◌∷◌, Option, none, some, length, ◌&&◌,
  if◌then◌else◌,
}
use zerobus_sdk.Common.Int.{ℤ, eq_ℤ}
use zerobus_sdk.Zeroparser.Errors.{ParseResult, ok, Ends, Ends->>=, Ends->>=_ok, Returns-Ends}
use zerobus_sdk.Zeroparser.Wire.{WireField, WireValue, try_parse_field}
use zerobus_sdk.Zeroparser.Wire.Fields.{try_parse_field_takes, try_parse_field-Returns}
use zerobus_sdk.Zeroparser.Wire.Accessors.{
  try_as_str, try_as_bytes, try_as_i32, try_as_u32, try_as_i64, try_as_u64, try_as_bool,
  try_as_float, try_as_double,
}
use zerobus_sdk.Zeroparser.Types.{
  FieldType, MapKeyRef, convert_scalar_value, from_bytes, is_packable_type, map_entry_key_field_num,
  map_entry_value_field_num, from_field_value, max_nesting_depth,
}
use zerobus_sdk.Zeroparser.Types.Packed.{expand_into-Returns}
use zerobus_sdk.Zeroparser.Registry.{
  DescriptorWithFieldCache, FieldInfo, MessageRegistry, get_field, get, is_message,
}
use zerobus_sdk.Zeroparser.Parser.Message.{
  ParsedMessage, ComplexType, ParsedMapValue, nested, scalar, empty, message, repeated_message, map,
  repeated_scalar, complex, with_descriptor,
}
use zerobus_sdk.Zeroparser.Parser.Merge.{merge_from}
use zerobus_sdk.Zeroparser.Parser.Parse.{
  field_loop, NestedParser, clear_siblings, merge_value, entry_field, EntrySoFar, entry_value,
  parse_map_entry, nested_field, message_field, packed_field, packed_dest, repeated_field,
  scalar_field, message_body, parse_with, parse_internal, parse, find_descriptor, or_empty, map_key,
  type_or_bytes, type_name_or_empty, map_entry_descriptor, is_len, entry_key,
}
use zerobus_sdk.Zeroparser.Parser.SlotsEnd.{
  index_slot-Ends, set_complex_slot-Ends, set_scalar-Ends, add_repeated_scalar-Ends,
  add_repeated_message-Ends, add_map_entry-Ends, clear_oneof_siblings-Ends, merge_from-Ends,
  merge_or_set_message-Ends,
}

try_as_bytes-Ends : (w : WireValue) (n : ℤ) → Ends (try_as_bytes w n)
unfolding try_as_bytes
try_as_bytes-Ends w n = ground arith

convert-Ends : (t : FieldType) (w : WireValue) (n : ℤ) → Ends (convert_scalar_value t w n)
unfolding convert_scalar_value try_as_str try_as_bytes try_as_i32 try_as_u32 try_as_i64 try_as_u64
    try_as_bool try_as_float try_as_double
convert-Ends t w n = ground arith

from_bytes-Ends : (b : List ℕ) (t : FieldType) (n : ℤ) → Ends (from_bytes b t n)
unfolding from_bytes
from_bytes-Ends b t n = ground arith

-- What the loop takes shrinks by two bytes at least, so fuel of the length of the buffer is enough.
field_loop-Ends {ℓ} :
    {S : Type ℓ} (body : WireField → S → ParseResult S)
    → ((field : WireField) (s : S) → Ends (body field s))
    → (fuel : ℕ) (bytes : List ℕ) (s : S) → length bytes ≤ fuel
    → Ends (field_loop body fuel bytes s)
unfolding field_loop
field_loop-Ends body h zero [] s e = tt
field_loop-Ends body h (suc fuel) [] s e = tt
field_loop-Ends body h zero (b ∷ bytes) s e = absurd (omega arith)
field_loop-Ends body h (suc fuel) (b ∷ bytes) s e =
    Ends->>=_ok (try_parse_field (b ∷ bytes)) _
      (Returns-Ends (try_parse_field (b ∷ bytes)) (try_parse_field-Returns (b ∷ bytes)))
      λ p parsed. Ends->>= (body p.0 s) _ (h p.0 s) λ s'.
        field_loop-Ends body h fuel p.1 s'
          (omega (arith, (try_parse_field_takes (b ∷ bytes) p.0 p.1 parsed).0))

option-Ends {ℓ κ} :
    {A : Type ℓ} {B : Type κ} (o : Option A) (x : ParseResult B) (f : A → ParseResult B)
    → Ends x
    → ((a : A) → Ends (f a))
    → Ends (elim o [ none ↦ x | some a ↦ f a ])
option-Ends none x f h k = h
option-Ends (some a) x f h k = k a

if-Ends {ℓ} :
    {A : Type ℓ} (b : Bool) (x y : ParseResult A) → Ends x → Ends y → Ends (if b then x else y)
if-Ends true x y h k = h
if-Ends false x y h k = k

clear_siblings-Ends : (m : ParsedMessage) (info : FieldInfo) → Ends (clear_siblings m info)
unfolding clear_siblings
clear_siblings-Ends m info =
    option-Ends info.oneof_index (ok m) _ tt λ i. clear_oneof_siblings-Ends m i info

merge_value-Ends : (v : Option ParsedMapValue) (m : ParsedMessage) → Ends (merge_value v m)
unfolding merge_value
merge_value-Ends none m = tt
merge_value-Ends (some (scalar v)) m = tt
merge_value-Ends (some (nested existing)) m =
    Ends->>= (merge_from existing m) _ (merge_from-Ends existing m) λ _. tt

module _ (parse_nested : NestedParser)
    (ends : (name : String) (b : List ℕ) → Ends (parse_nested name b))
    (registry : MessageRegistry) where
  entry_field-Ends :
      (d : DescriptorWithFieldCache) (field : WireField) (s : EntrySoFar)
      → Ends (entry_field parse_nested registry d field s)
  unfolding entry_field
  entry_field-Ends d field (key, value) =
      option-Ends (get_field d field.field_num) (ok (key, value)) _ tt λ info.
        if-Ends (eq_ℤ field.field_num map_entry_key_field_num) _ _
          (Ends->>= _ _ (convert-Ends info.field_type field.value map_entry_key_field_num) λ _. tt)
          (if-Ends (eq_ℤ field.field_num map_entry_value_field_num) _ _
            (if-Ends (is_message info.field_type) _ _
              (Ends->>= _ _ (try_as_bytes-Ends field.value field.field_num) λ b.
                Ends->>= _ _ (ends (or_empty info.type_name) b)
                  λ m. Ends->>= _ _ (merge_value-Ends value m) λ _. tt)
              (Ends->>= _ _ (convert-Ends info.field_type field.value map_entry_value_field_num)
                λ _. tt))
            tt)

  entry_value-Ends :
      (info : Option FieldInfo) (v : Option ParsedMapValue)
      → Ends (entry_value parse_nested registry info v)
  unfolding entry_value
  entry_value-Ends info (some v) = tt
  entry_value-Ends info none =
      if-Ends (is_message (type_or_bytes info)) _ _
        (Ends->>= _ _ (ends (type_name_or_empty info) []) λ _. tt) tt

  map_key-Ends : (k : Option MapKeyRef) → Ends (map_key parse_nested registry k)
  map_key-Ends none = tt
  map_key-Ends (some k) = tt

  parse_map_entry-Ends :
      (b : List ℕ) (d : DescriptorWithFieldCache) → Ends (parse_map_entry parse_nested registry b d)
  unfolding parse_map_entry
  parse_map_entry-Ends b d =
      Ends->>= _ _
        (field_loop-Ends (entry_field parse_nested registry d) (entry_field-Ends d) (length b) b
          (none, none) (omega arith))
        λ kv. Ends->>= _ _ (entry_value-Ends (get_field d map_entry_value_field_num) kv.1) λ _.
          let key =
            from_field_value
              (entry_key parse_nested registry (get_field d map_entry_key_field_num) kv.0) in
          Ends->>= (map_key parse_nested registry key) _ (map_key-Ends key) λ _. tt

  nested_field-Ends :
      (info : FieldInfo) (n : ℤ) (b : List ℕ) (m : ParsedMessage)
      → Ends (nested_field parse_nested registry info n b m)
  unfolding nested_field
  nested_field-Ends info n b m = Ends->>= _ _ (ends (or_empty info.type_name) b) λ v.
      if-Ends info.is_repeated _ _ (add_repeated_message-Ends m info n v)
        (Ends->>= _ _ (clear_siblings-Ends m info) λ m'. merge_or_set_message-Ends m' info v)

  message_field-Ends :
      (info : FieldInfo) (field : WireField) (m : ParsedMessage)
      → Ends (message_field parse_nested registry info field m)
  unfolding message_field
  message_field-Ends info field m =
      Ends->>= _ _ (try_as_bytes-Ends field.value field.field_num) λ b.
        option-Ends
          (map_entry_descriptor parse_nested registry (get registry (or_empty info.type_name))) _ _
          (nested_field-Ends info field.field_num b m)
          λ d.
            Ends->>= _ _ (parse_map_entry-Ends b d)
              λ kv. add_map_entry-Ends m info field.field_num kv.0 kv.1

  packed_dest-Ends : (c : ComplexType) (n : ℤ) → Ends (packed_dest parse_nested registry c n)
  packed_dest-Ends empty n = tt
  packed_dest-Ends (message m) n = tt
  packed_dest-Ends (repeated_scalar vs) n = tt
  packed_dest-Ends (repeated_message ms) n = tt
  packed_dest-Ends (map es) n = tt

  packed_field-Ends :
      (info : FieldInfo) (field : WireField) (m : ParsedMessage)
      → Ends (packed_field parse_nested registry info field m)
  unfolding packed_field
  packed_field-Ends info field m = Ends->>= _ _ (try_as_bytes-Ends field.value field.field_num) λ b.
      Ends->>= _ _ (from_bytes-Ends b info.field_type field.field_num) λ packed.
        Ends->>= _ _ (index_slot-Ends (complex m) info.storage_index) λ c.
          Ends->>= _ _ (packed_dest-Ends c field.field_num) λ dest.
            Ends->>= _ _
              (Returns-Ends _ (expand_into-Returns packed info.field_type dest field.field_num))
              λ vs. set_complex_slot-Ends m info.storage_index (repeated_scalar vs)

  repeated_field-Ends :
      (info : FieldInfo) (field : WireField) (m : ParsedMessage)
      → Ends (repeated_field parse_nested registry info field m)
  unfolding repeated_field
  repeated_field-Ends info field m =
      if-Ends (is_packable_type info.field_type && is_len parse_nested registry field.value) _ _
        (packed_field-Ends info field m)
        (Ends->>= _ _ (convert-Ends info.field_type field.value field.field_num)
          λ v. add_repeated_scalar-Ends m info field.field_num v)

  message_body-Ends :
      (d : DescriptorWithFieldCache) (field : WireField) (m : ParsedMessage)
      → Ends (message_body parse_nested registry d field m)
  unfolding message_body scalar_field
  message_body-Ends d field m = option-Ends (get_field d field.field_num) (ok m) _ tt λ info.
      if-Ends info.is_scalar _ _
        (Ends->>= _ _ (convert-Ends info.field_type field.value field.field_num)
          λ v. Ends->>= _ _ (clear_siblings-Ends m info) λ m'. set_scalar-Ends m' info v)
        (if-Ends (is_message info.field_type) _ _ (message_field-Ends info field m)
          (repeated_field-Ends info field m))

  parse_with-Ends :
      (d : DescriptorWithFieldCache) (b : List ℕ) → Ends (parse_with parse_nested registry d b)
  unfolding parse_with
  parse_with-Ends d b =
      field_loop-Ends (message_body parse_nested registry d) (message_body-Ends d) (length b) b
        (with_descriptor d) (omega arith)

find_descriptor-Ends :
    (registry : MessageRegistry) (name : Option String) → Ends (find_descriptor registry name)
find_descriptor-Ends registry none = tt
find_descriptor-Ends registry (some name) = option-Ends (get registry name) _ _ tt λ _. tt

parse_internal-Ends :
    (levels : ℕ) (registry : MessageRegistry) (name : Option String) (b : List ℕ)
    → Ends (parse_internal levels registry name b)
unfolding parse_internal
parse_internal-Ends zero registry name b = tt
parse_internal-Ends (suc levels) registry name b =
    Ends->>= _ _ (find_descriptor-Ends registry name) λ d.
      parse_with-Ends (λ n nested_bytes. parse_internal levels registry (some n) nested_bytes)
        (λ n nested_bytes. parse_internal-Ends levels registry (some n) nested_bytes) registry d b

-- The parser ends on every input and for every registry: no loop over the fields of a buffer, at
-- any depth, runs out of fuel.
pub parse-Ends : (b : List ℕ) (registry : MessageRegistry) → Ends (parse b registry)
unfolding parse
parse-Ends b registry = parse_internal-Ends (suc max_nesting_depth) registry none b
