-- ===== src/Zeroparser/Wire/Accessors.antt =====
-- The accessors of `WireValue` in rust/sdk/src/zeroparser/wire.rs, and `std::str::from_utf8`.
use Prim.Native.String.{String}
use zerobus_sdk.Common.{
  ℕ, zero, suc, ◌%◌, ◌^◌, Bool, false, not, ◌&&◌, List, [], ◌∷◌, Option, none, some, leb, ltb, ◌==◌,
  if◌then◌else◌,
}
use zerobus_sdk.Common.Int.{ℤ, to_i32, to_i64}
use zerobus_sdk.Zeroparser.Errors.{ParseResult, ok, err, type_mismatch, invalid_utf8}
use zerobus_sdk.Zeroparser.Wire.{WireValue}

-- What a byte of UTF-8 text asks of the next ones: how many more the character has, and the range
-- of the first of them. A character's first byte is met with none pending.
unfoldable pub utf8_next : ℕ → ℕ → ℕ → ℕ → Option (ℕ × ℕ × ℕ)
utf8_next zero low high b =
    if ltb b 0x80
    then some (0, 0, 0)
    else if leb 0xc2 b && leb b 0xdf
    then some (1, 0x80, 0xbf)
    else if b == 0xe0
    then some (2, 0xa0, 0xbf)
    else if b == 0xed
    then some (2, 0x80, 0x9f)
    else if leb 0xe1 b && leb b 0xef
    then some (2, 0x80, 0xbf)
    else if b == 0xf0
    then some (3, 0x90, 0xbf)
    else if leb 0xf1 b && leb b 0xf3
    then some (3, 0x80, 0xbf)
    else if b == 0xf4
    then some (3, 0x80, 0x8f)
    else none
utf8_next (suc pending) low high b =
    if leb low b && leb b high then some (pending, 0x80, 0xbf) else none

unfoldable pub utf8_from : ℕ → ℕ → ℕ → List ℕ → Bool
unfolding utf8_next
utf8_from pending low high [] = pending == 0
utf8_from pending low high (b ∷ bytes) = elim (utf8_next pending low high b) [
  | none ↦ false
  | some (pending', low', high') ↦ utf8_from pending' low' high' bytes
]

-- Whether the bytes are well-formed UTF-8, by the table of the Unicode standard.
unfoldable pub is_utf8 : List ℕ → Bool
unfolding utf8_from
is_utf8 bytes = utf8_from 0 0 0 bytes

unfoldable pub wire_type_name : WireValue → String
wire_type_name (WireValue.varint v) = "Varint"
wire_type_name (WireValue.i64 v) = "I64"
wire_type_name (WireValue.len bytes) = "Len"
wire_type_name (WireValue.i32 v) = "I32"

abbrev pub mismatch {ℓ} : {A : Type ℓ} → String → WireValue → ℤ → ParseResult A
mismatch expected value field_num = err (type_mismatch expected (wire_type_name value) field_num)

-- A `&str` is the list of its bytes.
unfoldable pub try_as_str : WireValue → ℤ → ParseResult (List ℕ)
try_as_str (WireValue.len bytes) field_num =
    if is_utf8 bytes then ok bytes else err (invalid_utf8 field_num)
try_as_str value field_num = mismatch "Len" value field_num

unfoldable pub try_as_bytes : WireValue → ℤ → ParseResult (List ℕ)
try_as_bytes (WireValue.len bytes) field_num = ok bytes
try_as_bytes value field_num = mismatch "Len" value field_num

unfoldable pub try_as_i32 : WireValue → ℤ → ParseResult ℤ
try_as_i32 (WireValue.varint value) field_num = ok (to_i32 value)
try_as_i32 (WireValue.i32 value) field_num = ok (to_i32 value)
try_as_i32 other field_num = mismatch "Varint or I32" other field_num

unfoldable pub try_as_u32 : WireValue → ℤ → ParseResult ℕ
try_as_u32 (WireValue.varint value) field_num = ok (value % 2 ^ 32)
try_as_u32 (WireValue.i32 value) field_num = ok value
try_as_u32 other field_num = mismatch "Varint or I32" other field_num

unfoldable pub try_as_i64 : WireValue → ℤ → ParseResult ℤ
try_as_i64 (WireValue.varint value) field_num = ok (to_i64 value)
try_as_i64 (WireValue.i64 value) field_num = ok (to_i64 value)
try_as_i64 other field_num = mismatch "Varint or I64" other field_num

unfoldable pub try_as_u64 : WireValue → ℤ → ParseResult ℕ
try_as_u64 (WireValue.varint value) field_num = ok value
try_as_u64 (WireValue.i64 value) field_num = ok value
try_as_u64 other field_num = mismatch "Varint or I64" other field_num

unfoldable pub try_as_bool : WireValue → ℤ → ParseResult Bool
try_as_bool (WireValue.varint value) field_num = ok (not (value == 0))
try_as_bool other field_num = mismatch "Varint" other field_num

-- The bits of the float.
unfoldable pub try_as_float : WireValue → ℤ → ParseResult ℕ
try_as_float (WireValue.i32 value) field_num = ok value
try_as_float other field_num = mismatch "I32" other field_num

unfoldable pub try_as_double : WireValue → ℤ → ParseResult ℕ
try_as_double (WireValue.i64 value) field_num = ok value
try_as_double other field_num = mismatch "I64" other field_num
