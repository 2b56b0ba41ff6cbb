-- ===== src/Zeroparser/Types.antt =====
-- rust/sdk/src/zeroparser/types.rs: scalar values, packed fields and map keys.
pub mod Packed
pub mod Unpacked
use Prim.Native.String.{String}
use zerobus_sdk.Common.{
  ℕ, zero, suc, ◌%◌, ◌^◌, Bool, true, false, not, List, [], ◌∷◌, ◌++◌, Option, none, some, length,
  take, drop, leb, ◌==◌, if◌then◌else◌,
}
use zerobus_sdk.Common.Int.{ℤ, pos, to_i32, to_i64}
use zerobus_sdk.Zeroparser.Errors.{
  ParseResult, ok, err, stuck, ◌>>=◌, unsupported_group_field_type, invalid_packed_field_type,
  buffer_too_short,
}
use zerobus_sdk.Zeroparser.Wire.{
  WireValue, decode_zigzag32, decode_zigzag64, try_read_varint, from_le_bytes,
}
use zerobus_sdk.Zeroparser.Wire.Accessors.{
  try_as_str, try_as_bytes, try_as_i32, try_as_u32, try_as_i64, try_as_u64, try_as_bool,
  try_as_float, try_as_double,
}

abbrev pub max_nesting_depth : ℕ
max_nesting_depth = 100

abbrev pub map_entry_key_field_num : ℤ
map_entry_key_field_num = pos 1

abbrev pub map_entry_value_field_num : ℤ
map_entry_value_field_num = pos 2

-- `prost_types::field_descriptor_proto::Type`.
pub data FieldType : Type 0 where
  double float int64 uint64 int32 fixed64 fixed32 bool string group message bytes uint32 enum :
      FieldType
  sfixed32 sfixed64 sint32 sint64 : FieldType

-- A `str` is its bytes; `float` and `double` hold the bits of the number.
pub data FieldValueRef : Type 0 where
  string : List ℕ → FieldValueRef
  int32 : ℤ → FieldValueRef
  int64 : ℤ → FieldValueRef
  uint32 : ℕ → FieldValueRef
  uint64 : ℕ → FieldValueRef
  bool : Bool → FieldValueRef
  float : ℕ → FieldValueRef
  double : ℕ → FieldValueRef
  bytes : List ℕ → FieldValueRef

unfoldable pub convert_scalar_value : FieldType → WireValue → ℤ → ParseResult FieldValueRef
convert_scalar_value FieldType.string w n = do v ← try_as_str w n; ok (FieldValueRef.string v)
convert_scalar_value FieldType.int32 w n = do v ← try_as_i32 w n; ok (FieldValueRef.int32 v)
convert_scalar_value FieldType.sint32 w n = do
  v ← try_as_u32 w n
  ok (FieldValueRef.int32 (decode_zigzag32 v))
convert_scalar_value FieldType.int64 w n = do v ← try_as_i64 w n; ok (FieldValueRef.int64 v)
convert_scalar_value FieldType.sint64 w n = do
  v ← try_as_u64 w n
  ok (FieldValueRef.int64 (decode_zigzag64 v))
convert_scalar_value FieldType.uint32 w n = do v ← try_as_u32 w n; ok (FieldValueRef.uint32 v)
convert_scalar_value FieldType.fixed32 w n = do v ← try_as_u32 w n; ok (FieldValueRef.uint32 v)
convert_scalar_value FieldType.uint64 w n = do v ← try_as_u64 w n; ok (FieldValueRef.uint64 v)
convert_scalar_value FieldType.fixed64 w n = do v ← try_as_u64 w n; ok (FieldValueRef.uint64 v)
convert_scalar_value FieldType.sfixed32 w n = do v ← try_as_i32 w n; ok (FieldValueRef.int32 v)
convert_scalar_value FieldType.sfixed64 w n = do v ← try_as_i64 w n; ok (FieldValueRef.int64 v)
convert_scalar_value FieldType.bool w n = do v ← try_as_bool w n; ok (FieldValueRef.bool v)
convert_scalar_value FieldType.float w n = do v ← try_as_float w n; ok (FieldValueRef.float v)
convert_scalar_value FieldType.double w n = do v ← try_as_double w n; ok (FieldValueRef.double v)
convert_scalar_value FieldType.bytes w n = do v ← try_as_bytes w n; ok (FieldValueRef.bytes v)
convert_scalar_value FieldType.enum w n = do v ← try_as_i32 w n; ok (FieldValueRef.int32 v)
convert_scalar_value FieldType.message w n = do v ← try_as_bytes w n; ok (FieldValueRef.bytes v)
convert_scalar_value FieldType.group w n = err (unsupported_group_field_type n)

unfoldable pub default_value_for_type : FieldType → FieldValueRef
default_value_for_type FieldType.string = FieldValueRef.string []
default_value_for_type FieldType.int32 = FieldValueRef.int32 (pos 0)
default_value_for_type FieldType.sint32 = FieldValueRef.int32 (pos 0)
default_value_for_type FieldType.sfixed32 = FieldValueRef.int32 (pos 0)
default_value_for_type FieldType.int64 = FieldValueRef.int64 (pos 0)
default_value_for_type FieldType.sint64 = FieldValueRef.int64 (pos 0)
default_value_for_type FieldType.sfixed64 = FieldValueRef.int64 (pos 0)
default_value_for_type FieldType.uint32 = FieldValueRef.uint32 0
default_value_for_type FieldType.fixed32 = FieldValueRef.uint32 0
default_value_for_type FieldType.uint64 = FieldValueRef.uint64 0
default_value_for_type FieldType.fixed64 = FieldValueRef.uint64 0
default_value_for_type FieldType.bool = FieldValueRef.bool false
default_value_for_type FieldType.float = FieldValueRef.float 0
default_value_for_type FieldType.double = FieldValueRef.double 0
default_value_for_type FieldType.bytes = FieldValueRef.bytes []
default_value_for_type FieldType.message = FieldValueRef.bytes []
default_value_for_type FieldType.enum = FieldValueRef.int32 (pos 0)
default_value_for_type FieldType.group = FieldValueRef.bytes []

pub data PackedField : Type 0 where
  varint : List ℕ → PackedField
  fixed32 : List ℕ → PackedField
  fixed64 : List ℕ → PackedField

unfoldable pub is_packable_type : FieldType → Bool
is_packable_type FieldType.string = false
is_packable_type FieldType.bytes = false
is_packable_type FieldType.message = false
is_packable_type FieldType.group = false
is_packable_type other = true

unfoldable pub from_bytes : List ℕ → FieldType → ℤ → ParseResult PackedField
from_bytes raw FieldType.fixed32 field_num = ok (PackedField.fixed32 raw)
from_bytes raw FieldType.sfixed32 field_num = ok (PackedField.fixed32 raw)
from_bytes raw FieldType.float field_num = ok (PackedField.fixed32 raw)
from_bytes raw FieldType.fixed64 field_num = ok (PackedField.fixed64 raw)
from_bytes raw FieldType.sfixed64 field_num = ok (PackedField.fixed64 raw)
from_bytes raw FieldType.double field_num = ok (PackedField.fixed64 raw)
from_bytes raw FieldType.string field_num = err (invalid_packed_field_type field_num)
from_bytes raw FieldType.bytes field_num = err (invalid_packed_field_type field_num)
from_bytes raw FieldType.message field_num = err (invalid_packed_field_type field_num)
from_bytes raw FieldType.group field_num = err (invalid_packed_field_type field_num)
from_bytes raw other field_num = ok (PackedField.varint raw)

-- The bodies of the three loops of `expand_into`: one raw value as a scalar.
unfoldable pub packed_varint : FieldType → ℕ → ℤ → ParseResult FieldValueRef
packed_varint FieldType.int32 val field_num = ok (FieldValueRef.int32 (to_i32 val))
packed_varint FieldType.enum val field_num = ok (FieldValueRef.int32 (to_i32 val))
packed_varint FieldType.sint32 val field_num =
    ok (FieldValueRef.int32 (decode_zigzag32 (val % 2 ^ 32)))
packed_varint FieldType.int64 val field_num = ok (FieldValueRef.int64 (to_i64 val))
packed_varint FieldType.sint64 val field_num = ok (FieldValueRef.int64 (decode_zigzag64 val))
packed_varint FieldType.uint32 val field_num = ok (FieldValueRef.uint32 (val % 2 ^ 32))
packed_varint FieldType.uint64 val field_num = ok (FieldValueRef.uint64 val)
packed_varint FieldType.bool val field_num = ok (FieldValueRef.bool (not (val == 0)))
packed_varint other val field_num = err (invalid_packed_field_type field_num)

unfoldable pub packed_fixed32 : FieldType → ℕ → ℤ → ParseResult FieldValueRef
packed_fixed32 FieldType.fixed32 raw_value field_num = ok (FieldValueRef.uint32 raw_value)
packed_fixed32 FieldType.sfixed32 raw_value field_num = ok (FieldValueRef.int32 (to_i32 raw_value))
packed_fixed32 FieldType.float raw_value field_num = ok (FieldValueRef.float raw_value)
packed_fixed32 other raw_value field_num = err (invalid_packed_field_type field_num)

unfoldable pub packed_fixed64 : FieldType → ℕ → ℤ → ParseResult FieldValueRef
packed_fixed64 FieldType.fixed64 raw_value field_num = ok (FieldValueRef.uint64 raw_value)
packed_fixed64 FieldType.sfixed64 raw_value field_num = ok (FieldValueRef.int64 (to_i64 raw_value))
packed_fixed64 FieldType.double raw_value field_num = ok (FieldValueRef.double raw_value)
packed_fixed64 other raw_value field_num = err (invalid_packed_field_type field_num)

-- The chunk, and what `remaining` is afterwards.
unfoldable pub read_fixed_chunk : ℕ → List ℕ → ℤ → ParseResult (List ℕ × List ℕ)
read_fixed_chunk n remaining field_num =
    if leb n (length remaining)
    then ok (take n remaining, drop n remaining)
    else err (buffer_too_short n (length remaining) field_num)

-- One round of a loop: a raw value and what is left of the input.
abbrev pub Reader : Type 0
Reader = List ℕ → ParseResult (ℕ × List ℕ)

unfoldable pub read_raw : ℕ → ℤ → Reader
read_raw n field_num remaining = do
  (chunk, rest) ← read_fixed_chunk n remaining field_num
  ok (from_le_bytes chunk, rest)

-- `while !remaining.is_empty()`, on fuel: each round takes a byte at least.
unfoldable pub expand_loop :
    Reader
    → (ℕ → ParseResult FieldValueRef)
    → ℕ
    → List ℕ
    → List FieldValueRef
    → ParseResult (List FieldValueRef)
expand_loop read convert fuel [] dest = ok dest
expand_loop read convert zero (b ∷ remaining) dest = stuck
expand_loop read convert (suc fuel) (b ∷ remaining) dest = do
  (raw, rest) ← read (b ∷ remaining)
  value ← convert raw
  expand_loop read convert fuel rest (dest ++ value ∷ [])

-- The three loops differ in how a raw value is read and converted. Where one fails, `dest` is
-- dropped with the message that holds it, so the model returns none.
unfoldable pub expand_into :
    PackedField → FieldType → List FieldValueRef → ℤ → ParseResult (List FieldValueRef)
expand_into (PackedField.varint raw) t dest n =
    expand_loop try_read_varint (λ v. packed_varint t v n) (length raw) raw dest
expand_into (PackedField.fixed32 raw) t dest n =
    expand_loop (read_raw 4 n) (λ v. packed_fixed32 t v n) (length raw) raw dest
expand_into (PackedField.fixed64 raw) t dest n =
    expand_loop (read_raw 8 n) (λ v. packed_fixed64 t v n) (length raw) raw dest

pub data MapKeyRef : Type 0 where
  string : List ℕ → MapKeyRef
  int32 : ℤ → MapKeyRef
  int64 : ℤ → MapKeyRef
  uint32 : ℕ → MapKeyRef
  uint64 : ℕ → MapKeyRef
  bool : Bool → MapKeyRef

unfoldable pub from_field_value : FieldValueRef → Option MapKeyRef
from_field_value (FieldValueRef.string s) = some (MapKeyRef.string s)
from_field_value (FieldValueRef.int32 v) = some (MapKeyRef.int32 v)
from_field_value (FieldValueRef.int64 v) = some (MapKeyRef.int64 v)
from_field_value (FieldValueRef.uint32 v) = some (MapKeyRef.uint32 v)
from_field_value (FieldValueRef.uint64 v) = some (MapKeyRef.uint64 v)
from_field_value (FieldValueRef.bool v) = some (MapKeyRef.bool v)
from_field_value other = none

unfoldable pub to_field_value : MapKeyRef → FieldValueRef
to_field_value (MapKeyRef.string s) = FieldValueRef.string s
to_field_value (MapKeyRef.int32 v) = FieldValueRef.int32 v
to_field_value (MapKeyRef.int64 v) = FieldValueRef.int64 v
to_field_value (MapKeyRef.uint32 v) = FieldValueRef.uint32 v
to_field_value (MapKeyRef.uint64 v) = FieldValueRef.uint64 v
to_field_value (MapKeyRef.bool v) = FieldValueRef.bool v
