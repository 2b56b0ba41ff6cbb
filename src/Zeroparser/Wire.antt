-- ===== src/Zeroparser/Wire.antt =====
-- rust/sdk/src/zeroparser/wire.rs. A byte slice is a list of numbers below 256, a `u64` or `u32`
-- is its number, and the bits of an `f32` or `f64` stand for it. `usize` has 64 bits.
pub mod Varint
pub mod RoundTrip
pub mod Bounds
pub mod Fields
pub mod Zigzag
pub mod Accessors
use zerobus_sdk.Common.{
  ℕ, zero, suc, ◌+◌, ◌-◌, ◌*◌, ◌/◌, ◌%◌, ◌^◌, ◌<◌, Bool, true, false, not, ◌&&◌, List, [], ◌∷◌,
  length, take, drop, ltb, leb, ◌==◌, if◌then◌else◌,
}
use zerobus_sdk.Common.Bits.{bit_and, bit_or, bit_xor}
use zerobus_sdk.Common.Int.{ℤ, pos, negsuc, to_i32, to_i64}
use zerobus_sdk.Zeroparser.Errors.{
  ParseResult, ok, err, ◌>>=◌, truncated_varint, varint_too_long, invalid_wire_type,
  invalid_field_number, buffer_too_short, unsupported_group_wire_type,
}

abbrev pub IsByte : ℕ → Type 0
IsByte b = b < 2 ^ 8

-- `x << k` on a u64.
abbrev pub shl64 : ℕ → ℕ → ℕ
shl64 x k = x * 2 ^ k % 2 ^ 64

pub data WireValue : Type 0 where
  varint : ℕ → WireValue
  i64 : ℕ → WireValue
  len : List ℕ → WireValue
  i32 : ℕ → WireValue

pub data WireType : Type 0 where
  varint i64 len start_group end_group i32 : WireType

pub record WireField : Type 0 where
  pub field_num : ℤ
  pub value : WireValue

-- `-x` on an i32 or i64, as a bit pattern.
abbrev neg_bits : ℕ → ℕ → ℕ
neg_bits w x = (2 ^ w - x) % 2 ^ w

pub decode_zigzag32 : ℕ → ℤ
decode_zigzag32 n = to_i32 (bit_xor (n / 2) (neg_bits 32 (bit_and n 1)))

pub decode_zigzag64 : ℕ → ℤ
decode_zigzag64 n = to_i64 (bit_xor (n / 2) (neg_bits 64 (bit_and n 1)))

unfoldable pub wire_type_try_from : ℕ → ParseResult WireType
wire_type_try_from value =
    if value == 0
    then ok WireType.varint
    else if value == 1
    then ok WireType.i64
    else if value == 2
    then ok WireType.len
    else if value == 3
    then ok WireType.start_group
    else if value == 4
    then ok WireType.end_group
    else if value == 5
    then ok WireType.i32
    else err (invalid_wire_type (value % 2 ^ 8))

-- The tenth byte, after the loop of `parse_varint_slow`.
unfoldable pub varint_last : List ℕ → ℕ → ℕ → ParseResult (ℕ × List ℕ)
varint_last [] value shift = err truncated_varint
varint_last (b ∷ rest) value shift =
    if ltb 0x01 b then err varint_too_long else ok (bit_or value (shl64 b shift), rest)

-- The loop of `parse_varint_slow`, on the rounds left; the list is `data[i..]`.
unfoldable pub varint_loop : ℕ → List ℕ → ℕ → ℕ → ParseResult (ℕ × List ℕ)
unfolding varint_last
varint_loop zero bytes value shift = varint_last bytes value shift
varint_loop (suc n) [] value shift = err truncated_varint
varint_loop (suc n) (b ∷ rest) value shift =
    let value' = bit_or value (shl64 (bit_and b 0x7f) shift) in
    let more = varint_loop n rest value' (shift + 7) in
    if ltb b 0x80 then ok (value', rest) else more

unfoldable pub parse_varint_slow : List ℕ → ParseResult (ℕ × List ℕ)
unfolding varint_loop
parse_varint_slow bytes = varint_loop 9 bytes 0 0

-- The arms of `try_read_varint`, one for each count of bytes that are known to continue.
varint_5 : ℕ → ℕ → ℕ → ℕ → List ℕ → ParseResult (ℕ × List ℕ)
varint_5 b0 b1 b2 b3 [] = err truncated_varint
varint_5 b0 b1 b2 b3 (b4 ∷ rest) =
    if ltb b4 0x80
    then ok (
      bit_or
          (bit_or
            (bit_or (bit_or (bit_and b0 0x7f) (shl64 (bit_and b1 0x7f) 7))
              (shl64 (bit_and b2 0x7f) 14))
            (shl64 (bit_and b3 0x7f) 21))
          (shl64 b4 28),
      rest,
    )
    else parse_varint_slow (b0 ∷ b1 ∷ b2 ∷ b3 ∷ b4 ∷ rest)

varint_4 : ℕ → ℕ → ℕ → List ℕ → ParseResult (ℕ × List ℕ)
unfolding varint_5
varint_4 b0 b1 b2 [] = err truncated_varint
varint_4 b0 b1 b2 (b3 ∷ rest) =
    if ltb b3 0x80
    then ok (
      bit_or
          (bit_or (bit_or (bit_and b0 0x7f) (shl64 (bit_and b1 0x7f) 7))
            (shl64 (bit_and b2 0x7f) 14))
          (shl64 b3 21),
      rest,
    )
    else varint_5 b0 b1 b2 b3 rest

varint_3 : ℕ → ℕ → List ℕ → ParseResult (ℕ × List ℕ)
unfolding varint_4
varint_3 b0 b1 [] = err truncated_varint
varint_3 b0 b1 (b2 ∷ rest) =
    if ltb b2 0x80
    then ok (bit_or (bit_or (bit_and b0 0x7f) (shl64 (bit_and b1 0x7f) 7)) (shl64 b2 14), rest)
    else varint_4 b0 b1 b2 rest

varint_2 : ℕ → List ℕ → ParseResult (ℕ × List ℕ)
unfolding varint_3
varint_2 b0 [] = err truncated_varint
varint_2 b0 (b1 ∷ rest) =
    if ltb b1 0x80 then ok (bit_or (bit_and b0 0x7f) (shl64 b1 7), rest) else varint_3 b0 b1 rest

unfoldable pub try_read_varint : List ℕ → ParseResult (ℕ × List ℕ)
unfolding varint_2 parse_varint_slow
try_read_varint [] = err truncated_varint
try_read_varint (b0 ∷ rest) = if ltb b0 0x80 then ok (b0, rest) else varint_2 b0 rest

abbrev pub max_field_number : ℕ
max_field_number = 536_870_911

-- `(1..=536_870_911).contains(&field_num)`
abbrev pub is_field_number : ℤ → Bool
is_field_number (pos n) = leb 1 n && leb n max_field_number
is_field_number (negsuc n) = false

unfoldable pub try_unpack_tag : ℕ → ParseResult (ℤ × WireType)
unfolding wire_type_try_from
try_unpack_tag tag = do
  let field_num = to_i32 (tag / 2 ^ 3)
  wire_type ← wire_type_try_from (bit_and tag 0x7)
  if not (is_field_number field_num)
      then err (invalid_field_number field_num)
      else ok (field_num, wire_type)

unfoldable pub from_le_bytes : List ℕ → ℕ
from_le_bytes [] = 0
from_le_bytes (b ∷ bytes) = b + 2 ^ 8 * from_le_bytes bytes

-- `get(..n)` with its error, and the bytes behind.
unfoldable pub read_fixed : ℕ → ℤ → List ℕ → ParseResult (List ℕ × List ℕ)
read_fixed n field_num bytes =
    if leb n (length bytes)
    then ok (take n bytes, drop n bytes)
    else err (buffer_too_short n (length bytes) field_num)

unfoldable pub read_value : WireType → ℤ → List ℕ → ParseResult (WireValue × List ℕ)
read_value WireType.varint field_num bytes = do
  (value, rest) ← try_read_varint bytes
  ok (WireValue.varint value, rest)
read_value WireType.i64 field_num bytes = do
  (eight, rest) ← read_fixed 8 field_num bytes
  ok (WireValue.i64 (from_le_bytes eight), rest)
read_value WireType.len field_num bytes = do
  (n, rest) ← try_read_varint bytes
  if ltb (length rest) n
      then err (buffer_too_short n (length rest) field_num)
      else ok (WireValue.len (take n rest), drop n rest)
read_value WireType.i32 field_num bytes = do
  (four, rest) ← read_fixed 4 field_num bytes
  ok (WireValue.i32 (from_le_bytes four), rest)
read_value WireType.start_group field_num bytes = err unsupported_group_wire_type
read_value WireType.end_group field_num bytes = err unsupported_group_wire_type

unfoldable pub try_parse_field : List ℕ → ParseResult (WireField × List ℕ)
try_parse_field bytes = do
  (tag, rest) ← try_read_varint bytes
  (field_num, wire_type) ← try_unpack_tag tag
  (value, rest') ← read_value wire_type field_num rest
  ok (record { field_num = field_num; value = value }, rest')
