-- ===== src/Zeroparser/Wire/Fields.antt =====
-- Tags and whole fields: what `try_parse_field` takes, and that it reads back what was encoded.
use zerobus_sdk.Common.{
  ℕ, zero, suc, ◌+◌, ◌*◌, ◌/◌, ◌%◌, ◌^◌, ◌≤◌, ◌<◌, ◌≡◌, refl, ap, arith, List, [], ◌∷◌, ◌++◌,
  length, length-append, length-drop, take_append, drop_append,
}
use mathlib.Core.List.{append_assoc}
use zerobus_sdk.Common.Bits.{bit_and, bit_and_7}
use zerobus_sdk.Common.Int.{ℤ, pos}
use zerobus_sdk.Zeroparser.Errors.{ok, Returns, Returns->>=, >>=-eq-ok}
use zerobus_sdk.Zeroparser.Wire.{
  try_read_varint, WireValue, WireType, WireField, try_unpack_tag, read_value, read_fixed,
  from_le_bytes, try_parse_field, max_field_number,
}
use zerobus_sdk.Zeroparser.Wire.Bounds.{try_read_varint-Takes, try_read_varint-Returns}
use zerobus_sdk.Zeroparser.Wire.RoundTrip.{encode_varint, try_read_varint-encode}

abbrev pub IsFieldNumber : ℕ → Type 0
IsFieldNumber n = (1 ≤ n) × (n ≤ max_field_number)

abbrev pub wire_number : WireType → ℕ
wire_number WireType.varint = 0
wire_number WireType.i64 = 1
wire_number WireType.len = 2
wire_number WireType.start_group = 3
wire_number WireType.end_group = 4
wire_number WireType.i32 = 5

unpack_low : (n k : ℕ) → k < 8 → (bit_and (n * 8 + k) 0x7 ≡ k) × ((n * 8 + k) / 2 ^ 3 ≡ n)
unpack_low n k h = (omega (arith, bit_and_7 (n * 8 + k)), omega arith)

-- A tag is unpacked into the number and the wire type that it was made from.
pub try_unpack_tag_lem :
    (n : ℕ) (t : WireType)
    → IsFieldNumber n
    → try_unpack_tag (n * 8 + wire_number t) ≡ ok (pos n, t)
unfolding try_unpack_tag
try_unpack_tag_lem n WireType.varint h = ground (arith, unpack_low n 0)
try_unpack_tag_lem n t h = ground (arith, unpack_low n (wire_number t))

-- Every tag that is accepted gives a number in the range of the protobuf specification.
pub try_unpack_tag-IsFieldNumber :
    (tag : ℕ) (field_num : ℤ) (t : WireType)
    → try_unpack_tag tag ≡ ok (field_num, t)
    → (n : ℕ) × (field_num ≡ pos n) × IsFieldNumber n
unfolding try_unpack_tag
try_unpack_tag-IsFieldNumber tag (pos n) t e = (n, refl, ground arith)
try_unpack_tag-IsFieldNumber tag field_num t e = ground arith

-- The cast to i32 comes before the range is checked: tags that differ by a multiple of 2 ^ 35 are
-- unpacked alike, so a field number beyond 32 bits is taken for a small one.
pub try_unpack_tag_wraps : (tag k : ℕ) → try_unpack_tag (tag + k * 2 ^ 35) ≡ try_unpack_tag tag
unfolding try_unpack_tag
try_unpack_tag_wraps tag k =
    let number : (tag + k * 2 ^ 35) / 2 ^ 3 % 2 ^ 32 ≡ tag / 2 ^ 3 % 2 ^ 32 = omega arith in
    let kind : bit_and (tag + k * 2 ^ 35) 0x7 ≡ bit_and tag 0x7 =
      omega (arith, bit_and_7 (tag + k * 2 ^ 35), bit_and_7 tag) in
    rw (number, kind) refl

-- The encoder of a field, in plain arithmetic.
unfoldable pub to_le_bytes : ℕ → ℕ → List ℕ
to_le_bytes zero v = []
to_le_bytes (suc n) v = v % 256 ∷ to_le_bytes n (v / 256)

abbrev pub wire_type_of : WireValue → WireType
wire_type_of (WireValue.varint v) = WireType.varint
wire_type_of (WireValue.i64 v) = WireType.i64
wire_type_of (WireValue.len bytes) = WireType.len
wire_type_of (WireValue.i32 v) = WireType.i32

abbrev pub IsWireValue : WireValue → Type 0
IsWireValue (WireValue.varint v) = v < 2 ^ 64
IsWireValue (WireValue.i64 v) = v < 2 ^ 64
IsWireValue (WireValue.len bytes) = length bytes < 2 ^ 64
IsWireValue (WireValue.i32 v) = v < 2 ^ 32

unfoldable pub encode_value : WireValue → List ℕ
encode_value (WireValue.varint v) = encode_varint v
encode_value (WireValue.i64 v) = to_le_bytes 8 v
encode_value (WireValue.len bytes) = encode_varint (length bytes) ++ bytes
encode_value (WireValue.i32 v) = to_le_bytes 4 v

unfoldable pub encode_field : ℕ → WireValue → List ℕ
encode_field n value =
    encode_varint (n * 8 + wire_number (wire_type_of value)) ++ encode_value value

pub length-to_le_bytes : (n v : ℕ) → length (to_le_bytes n v) ≡ n
unfolding to_le_bytes
length-to_le_bytes zero v = refl
length-to_le_bytes (suc n) v = ap suc (length-to_le_bytes n (v / 256))

pub from_le_bytes-to_le_bytes : (n v : ℕ) → v < 256 ^ n → from_le_bytes (to_le_bytes n v) ≡ v
unfolding from_le_bytes to_le_bytes
from_le_bytes-to_le_bytes zero v h = omega arith
from_le_bytes-to_le_bytes (suc n) v h =
    omega (arith, from_le_bytes-to_le_bytes n (v / 256) (omega arith))

read_fixed-append :
    (n v : ℕ) (field_num : ℤ) (rest : List ℕ)
    → read_fixed n field_num (to_le_bytes n v ++ rest) ≡ ok (to_le_bytes n v, rest)
unfolding read_fixed
read_fixed-append n v field_num rest =
    let e = length-to_le_bytes n v in
    let taken = rw e at (take_append (to_le_bytes n v) rest) in
    let left = rw e at (drop_append (to_le_bytes n v) rest) in
    ground (arith, length-append (to_le_bytes n v) rest, taken, left)

read_value-encode :
    (value : WireValue) (field_num : ℤ) (rest : List ℕ)
    → IsWireValue value
    → read_value (wire_type_of value) field_num (encode_value value ++ rest) ≡ ok (value, rest)
unfolding read_value encode_value
read_value-encode (WireValue.varint v) field_num rest h = rw (try_read_varint-encode v rest h)
read_value-encode (WireValue.i64 v) field_num rest h =
    rw (read_fixed-append 8 v field_num rest, from_le_bytes-to_le_bytes 8 v (omega arith))
read_value-encode (WireValue.i32 v) field_num rest h =
    rw (read_fixed-append 4 v field_num rest, from_le_bytes-to_le_bytes 4 v (omega arith))
read_value-encode (WireValue.len bytes) field_num rest h =
    rw
      (
        append_assoc (encode_varint (length bytes)) bytes rest,
        try_read_varint-encode (length bytes) (bytes ++ rest) h,
      )
      (ground (arith, length-append bytes rest, take_append bytes rest, drop_append bytes rest))

tag_small : (n : ℕ) (t : WireType) → IsFieldNumber n → n * 8 + wire_number t < 2 ^ 64
tag_small n WireType.varint h = omega arith
tag_small n t h = omega arith

-- A field of any wire type that was encoded is read back, and what follows it is left.
pub try_parse_field-encode :
    (n : ℕ) (value : WireValue) (rest : List ℕ)
    → IsFieldNumber n
    → IsWireValue value
    → try_parse_field (encode_field n value ++ rest)
      ≡ ok (record { field_num = pos n; value = value }, rest)
unfolding try_parse_field encode_field
try_parse_field-encode n value rest hn hv =
    rw
      (append_assoc (encode_varint (n * 8 + wire_number (wire_type_of value))) (encode_value value)
        rest)
      (rw (
        try_read_varint-encode (n * 8 + wire_number (wire_type_of value))
            (encode_value value ++ rest) (tag_small n (wire_type_of value) hn),
        try_unpack_tag_lem n (wire_type_of value) hn,
        read_value-encode value (pos n) rest hv,
      ))

pub varint_shrinks :
    (bytes : List ℕ) (v : ℕ) (rest : List ℕ)
    → try_read_varint bytes ≡ ok (v, rest)
    → length rest < length bytes
varint_shrinks bytes v rest e =
    let t = (try_read_varint-Takes bytes v rest e).1 in
    omega (arith, t.some_taken, ap length t.split, length-append t.front rest)

read_fixed_shrinks :
    (n : ℕ) (field_num : ℤ) (bytes chunk rest : List ℕ)
    → read_fixed n field_num bytes ≡ ok (chunk, rest)
    → length rest + n ≡ length bytes
unfolding read_fixed
read_fixed_shrinks n field_num bytes chunk rest e = ground (arith, length-drop n bytes)

read_value_shrinks :
    (t : WireType) (field_num : ℤ) (bytes : List ℕ) (value : WireValue) (rest : List ℕ)
    → read_value t field_num bytes ≡ ok (value, rest)
    → length rest < length bytes
unfolding read_value
read_value_shrinks WireType.varint field_num bytes value rest e =
    let ((v, rest'), r, f) = >>=-eq-ok (try_read_varint bytes) _ e in
    ground (arith, varint_shrinks bytes v rest' r)
read_value_shrinks WireType.i64 field_num bytes value rest e =
    let ((v, rest'), r, f) = >>=-eq-ok (read_fixed 8 field_num bytes) _ e in
    ground (arith, read_fixed_shrinks 8 field_num bytes v rest' r)
read_value_shrinks WireType.i32 field_num bytes value rest e =
    let ((v, rest'), r, f) = >>=-eq-ok (read_fixed 4 field_num bytes) _ e in
    ground (arith, read_fixed_shrinks 4 field_num bytes v rest' r)
read_value_shrinks WireType.len field_num bytes value rest e =
    let ((v, rest'), r, f) = >>=-eq-ok (try_read_varint bytes) _ e in
    ground (arith, varint_shrinks bytes v rest' r, length-drop v rest')
read_value_shrinks WireType.start_group field_num bytes value rest e = cc
read_value_shrinks WireType.end_group field_num bytes value rest e = cc

-- A field that is read takes two bytes at least, and its number is in range.
pub try_parse_field_takes :
    (bytes : List ℕ) (field : WireField) (rest : List ℕ)
    → try_parse_field bytes ≡ ok (field, rest)
    → (length rest + 2 ≤ length bytes) × (n : ℕ) × (field.field_num ≡ pos n) × IsFieldNumber n
unfolding try_parse_field
try_parse_field_takes bytes field rest e =
    let ((tag, rest'), r, f) = >>=-eq-ok (try_read_varint bytes) _ e in
    let ((num, t), u, g) = >>=-eq-ok (try_unpack_tag tag) _ f in
    let ((value, rest''), w, h) = >>=-eq-ok (read_value t num rest') _ g in
    let (n, is_n, ok_n) = try_unpack_tag-IsFieldNumber tag num t u in
    (
      ground (
        arith,
        varint_shrinks bytes tag rest' r,
        read_value_shrinks t num rest' value rest'' w,
        h,
      ),
      n,
      ground (arith, h, is_n),
      ok_n,
    )

try_unpack_tag-Returns : (tag : ℕ) → Returns (try_unpack_tag tag)
unfolding try_unpack_tag
try_unpack_tag-Returns tag = ground arith

read_fixed-Returns :
    (n : ℕ) (field_num : ℤ) (bytes : List ℕ) → Returns (read_fixed n field_num bytes)
unfolding read_fixed
read_fixed-Returns n field_num bytes = ground arith

read_value-Returns :
    (t : WireType) (field_num : ℤ) (bytes : List ℕ) → Returns (read_value t field_num bytes)
unfolding read_value
read_value-Returns WireType.varint field_num bytes =
    Returns->>= (try_read_varint bytes) _ (try_read_varint-Returns bytes) (λ a _. tt)
read_value-Returns WireType.i64 field_num bytes =
    Returns->>= (read_fixed 8 field_num bytes) _ (read_fixed-Returns 8 field_num bytes) (λ a _. tt)
read_value-Returns WireType.len field_num bytes =
    Returns->>= (try_read_varint bytes) _ (try_read_varint-Returns bytes) (λ a _. ground arith)
read_value-Returns WireType.i32 field_num bytes =
    Returns->>= (read_fixed 4 field_num bytes) _ (read_fixed-Returns 4 field_num bytes) (λ a _. tt)
read_value-Returns WireType.start_group field_num bytes = tt
read_value-Returns WireType.end_group field_num bytes = tt

pub try_parse_field-Returns : (bytes : List ℕ) → Returns (try_parse_field bytes)
unfolding try_parse_field
try_parse_field-Returns bytes =
    Returns->>= (try_read_varint bytes) _ (try_read_varint-Returns bytes) λ a _.
      Returns->>= (try_unpack_tag a.0) _ (try_unpack_tag-Returns a.0)
        λ b _. Returns->>= (read_value b.1 b.0 a.1) _ (read_value-Returns b.1 b.0 a.1) λ c _. tt
