-- ===== src/Zeroparser/Runs.antt =====
-- The theorems of the parser's parts at concrete inputs, and runs on the inputs of the source's
-- own tests.
use zerobus_sdk.Common.{
  ℕ, ◌+◌, ◌*◌, ◌^◌, ◌≤◌, ◌<◌, ◌≡◌, ◌↔◌, refl, arith, none, some, List, [], ◌∷◌, ◌++◌,
}
use zerobus_sdk.Common.Int.{pos}
use zerobus_sdk.Zeroparser.Errors.{ok, err, ◌>>=◌, truncated_varint, varint_too_long, Ends}
use zerobus_sdk.Zeroparser.Wire.{
  WireValue, WireType, try_read_varint, parse_varint_slow, try_unpack_tag, try_parse_field,
}
use zerobus_sdk.Zeroparser.Wire.Varint.{try_read_varint-slow}
use zerobus_sdk.Zeroparser.Wire.RoundTrip.{encode_varint, try_read_varint-encode}
use zerobus_sdk.Zeroparser.Wire.Bounds.{Takes, try_read_varint-Takes, truncated_iff, Continue}
use zerobus_sdk.Zeroparser.Wire.Fields.{try_unpack_tag_wraps, encode_field, try_parse_field-encode}
use zerobus_sdk.Zeroparser.Types.{FieldType, FieldValueRef, PackedField, expand_into}
use zerobus_sdk.Zeroparser.Types.Unpacked.{
  expand_into-convert_scalar_value, convert_all, encode_all, scalar_of, Stops, reader_of, finish,
}
use zerobus_sdk.Zeroparser.SparseFieldMap
use zerobus_sdk.Zeroparser.SparseFieldMap.{SparseFieldMap, get, insert}
use zerobus_sdk.Zeroparser.SparseFieldMap.Lookup.{get-insert}
use zerobus_sdk.Zeroparser.Parser.Message.{
  ParsedMessage, parsed, slot, no_slots, empty, get_scalar, index,
}
use zerobus_sdk.Zeroparser.Parser.Parse.{parse}
use zerobus_sdk.Zeroparser.Parser.Termination.{parse-Ends}
use zerobus_sdk.Zeroparser.Registry.{
  MessageRegistry, DescriptorProto, descriptor_proto, nil, cons, registry_from_descriptor,
  from_descriptor,
}
use zerobus_sdk.Zeroparser.Registry.{
  get_field, add_fields, add_field, add_numbered, max_inline_field_num,
}
use zerobus_sdk.Zeroparser.Registry.Collect.{visit, registry_from_descriptor_lem}

abbrev two_bytes : List ℕ
two_bytes = 0x96 ∷ 0x01 ∷ 0xff ∷ []

two_bytes_read : try_read_varint two_bytes ≡ ok (150, 0xff ∷ [])
unfolding try_read_varint
two_bytes_read = refl

eleven_bytes :
    try_read_varint
      (0x80 ∷ 0x80 ∷ 0x80 ∷ 0x80 ∷ 0x80 ∷ 0x80 ∷ 0x80 ∷ 0x80 ∷ 0x80 ∷ 0x80 ∷ 0x01 ∷ [])
    ≡ err varint_too_long
unfolding try_read_varint
eleven_bytes = refl

try_read_varint-slow_example : try_read_varint two_bytes ≡ parse_varint_slow two_bytes
try_read_varint-slow_example = try_read_varint-slow two_bytes

try_read_varint-encode_example :
    try_read_varint (encode_varint 34_359_738_368 ++ 7 ∷ []) ≡ ok (34_359_738_368, 7 ∷ [])
try_read_varint-encode_example = try_read_varint-encode 34_359_738_368 (7 ∷ []) (omega arith)

try_read_varint-Takes_example : (150 < 2 ^ 64) × Takes two_bytes (0xff ∷ []) 10
try_read_varint-Takes_example = try_read_varint-Takes two_bytes 150 (0xff ∷ []) two_bytes_read

truncated_iff_example :
    (try_read_varint (0x80 ∷ 0xff ∷ []) ≡ err truncated_varint)
    ↔ (Continue (0x80 ∷ 0xff ∷ []) × (2 ≤ 9))
truncated_iff_example = truncated_iff (0x80 ∷ 0xff ∷ [])

-- A tag with field number 2 ^ 32 + 1, which is out of range, passes for field 1.
try_unpack_tag_wraps_example : try_unpack_tag (8 + 1 * 2 ^ 35) ≡ try_unpack_tag 8
try_unpack_tag_wraps_example = try_unpack_tag_wraps 8 1

out_of_range_accepted : try_unpack_tag (8 * (2 ^ 32 + 1)) ≡ ok (pos 1, WireType.varint)
unfolding try_unpack_tag
out_of_range_accepted = refl

abbrev text_value : WireValue
text_value = WireValue.len (0xaa ∷ 0xbb ∷ [])

try_parse_field-encode_example :
    try_parse_field (encode_field 5 text_value ++ 1 ∷ [])
    ≡ ok (record { field_num = pos 5; value = text_value }, 1 ∷ [])
try_parse_field-encode_example =
    try_parse_field-encode 5 text_value (1 ∷ []) (omega arith) (omega arith)

-- Behind two values stands a byte that begins a third.
abbrev cut_off : PackedField
cut_off = PackedField.varint (encode_all encode_varint (1 ∷ 300 ∷ []) ++ 128 ∷ [])

cut_off-Stops : Stops (reader_of cut_off (pos 4)) (128 ∷ []) (some truncated_varint)
unfolding try_read_varint
cut_off-Stops = refl

expand_into-convert_scalar_value_example : expand_into cut_off FieldType.sint32 [] (pos 4) ≡ (
    convert_all (λ v. scalar_of cut_off FieldType.sint32 v (pos 4)) (1 ∷ 300 ∷ []) >>= λ xs.
    finish (some truncated_varint) ([] ++ xs))
expand_into-convert_scalar_value_example =
    expand_into-convert_scalar_value cut_off FieldType.sint32 [] (pos 4) (1 ∷ 300 ∷ []) (128 ∷ [])
      (some truncated_varint) refl (omega arith) cut_off-Stops

abbrev inline_and_overflow : SparseFieldMap ℕ
inline_and_overflow = record { inline = none ∷ none ∷ some 7 ∷ []; overflow = (pos 500, 9) ∷ [] }

get-insert_example :
    (get (insert inline_and_overflow (pos 500) 11).0 (pos 2) ≡ get inline_and_overflow (pos 2))
    × ((insert inline_and_overflow (pos 500) 11).1 ≡ get inline_and_overflow (pos 500))
get-insert_example = get-insert inline_and_overflow (pos 500) (pos 2) 11 (omega arith) (omega arith)

abbrev outer_type : DescriptorProto
outer_type =
    descriptor_proto (some "Outer") [] (cons (descriptor_proto (some "Inner") [] nil 0 none) nil) 0
      none

registry_from_descriptor_lem_example :
    registry_from_descriptor outer_type
    ≡ some
        (record { messages = visit outer_type "" []; root_descriptor = from_descriptor outer_type })
registry_from_descriptor_lem_example = registry_from_descriptor_lem outer_type

-- A message with one int32 field.
abbrev counter_type : DescriptorProto
counter_type =
    descriptor_proto (some "Counter")
      (record {
        name = some "count";
        number = some (pos 1);
        label = none;
        type = FieldType.int32;
        type_name = none;
        oneof_index = none;
        json_name = none;
        proto3_optional = none;
      }
        ∷ [])
      nil 0 none

abbrev counter_registry : MessageRegistry
counter_registry = record { messages = []; root_descriptor = from_descriptor counter_type }

parse-Ends_example : Ends (parse (0x08 ∷ 0x2a ∷ []) counter_registry)
parse-Ends_example = parse-Ends (0x08 ∷ 0x2a ∷ []) counter_registry

-- A message type with an int32 field 1 and a message field 2: both have storage index 0, so
-- `get_scalar` of field 2 returns the value of field 1.
abbrev mixed_type : DescriptorProto
mixed_type =
    descriptor_proto (some "Mixed")
      (record {
        name = some "count";
        number = some (pos 1);
        label = none;
        type = FieldType.int32;
        type_name = none;
        oneof_index = none;
        json_name = none;
        proto3_optional = none;
      }
        ∷ record {
          name = some "inner";
          number = some (pos 2);
          label = none;
          type = FieldType.message;
          type_name = some ".Counter";
          oneof_index = none;
          json_name = none;
          proto3_optional = none;
        }
        ∷ [])
      nil 0 none

abbrev mixed_message : ParsedMessage
mixed_message =
    parsed (some (FieldValueRef.int32 (pos 42)) ∷ []) (slot empty no_slots)
      (from_descriptor mixed_type)

get_scalar_of_message_field :
    get_scalar mixed_message (pos 2) ≡ ok (some (FieldValueRef.int32 (pos 42)))
unfolding get_scalar from_descriptor index get_field get add_fields add_field add_numbered insert
    SparseFieldMap.new max_inline_field_num
get_scalar_of_message_field = refl
