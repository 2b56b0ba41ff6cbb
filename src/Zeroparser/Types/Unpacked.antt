-- ===== src/Zeroparser/Types/Unpacked.antt =====
-- A packed field means the same as its values sent one by one.
use mathlib.Core.List.{append-nil, append_assoc}
use mathlib.Core.Path.{fun_ext}
use zerobus_sdk.Common.{
  ℕ, zero, suc, ◌^◌, ◌≤◌, ◌<◌, ◌≡◌, refl, ap, ◌∙◌, arith, List, [], ◌∷◌, ◌++◌, length, All,
  length-append, take_append, drop_append, Bool, true, false, if◌then◌else◌, Option, none, some,
}
use zerobus_sdk.Common.Int.{ℤ}
use zerobus_sdk.Zeroparser.Errors.{
  ParseError, invalid_packed_field_type, ParseResult, ok, err, panic, stuck, ◌>>=◌,
}
use zerobus_sdk.Zeroparser.Wire.{WireValue, try_read_varint}
use zerobus_sdk.Zeroparser.Wire.RoundTrip.{encode_varint, try_read_varint-encode, encode_groups}
use zerobus_sdk.Zeroparser.Wire.Accessors.{
  try_as_i32, try_as_u32, try_as_i64, try_as_u64, try_as_bool, try_as_float, try_as_double,
}
use zerobus_sdk.Zeroparser.Wire.Fields.{to_le_bytes, length-to_le_bytes, from_le_bytes-to_le_bytes}
use zerobus_sdk.Zeroparser.Types.{
  FieldType, FieldValueRef, convert_scalar_value, PackedField, from_bytes, packed_varint,
  packed_fixed32, packed_fixed64, read_fixed_chunk, read_raw, Reader, expand_loop, expand_into,
}

-- The values converted in order, up to the first error.
unfoldable pub convert_all :
    (ℕ → ParseResult FieldValueRef) → List ℕ → ParseResult (List FieldValueRef)
convert_all convert [] = ok []
convert_all convert (v ∷ vs) = do x ← convert v; xs ← convert_all convert vs; ok (x ∷ xs)

unfoldable pub encode_all : (ℕ → List ℕ) → List ℕ → List ℕ
encode_all encode [] = []
encode_all encode (v ∷ vs) = encode v ++ encode_all encode vs

-- A reader and an encoder that undo each other on the values in `P`, with no empty encoding.
record Matches (read : Reader) (encode : ℕ → List ℕ) (P : ℕ → Type 0) : Type 0 where
  reads : (v : ℕ) (rest : List ℕ) → P v → read (encode v ++ rest) ≡ ok (v, rest)
  nonempty : (v : ℕ) → 1 ≤ length (encode v)

-- What is behind the values: nothing, or bytes on which the reader fails.
abbrev pub Stops : Reader → List ℕ → Option ParseError → Type 0
Stops read [] none = Unit
Stops read [] (some e) = ⊥
Stops read (b ∷ rest) none = ⊥
Stops read (b ∷ rest) (some e) = read (b ∷ rest) ≡ err e

abbrev pub finish : Option ParseError → List FieldValueRef → ParseResult (List FieldValueRef)
finish none xs = ok xs
finish (some e) xs = err e

bind_convert :
    (end : Option ParseError) (m : ParseResult (List FieldValueRef)) (dest : List FieldValueRef)
    (x : FieldValueRef)
    → (m >>= λ xs. finish end ((dest ++ x ∷ []) ++ xs))
      ≡ ((m >>= λ xs. ok (x ∷ xs)) >>= λ xs. finish end (dest ++ xs))
bind_convert end (ok xs) dest x = ap (finish end) (append_assoc dest (x ∷ []) xs)
bind_convert end (err e) dest x = refl
bind_convert end panic dest x = refl
bind_convert end stuck dest x = refl

module _ (read : Reader) (encode : ℕ → List ℕ) (P : ℕ → Type 0) (match : Matches read encode P)
    (convert : ℕ → ParseResult FieldValueRef) where
  expand_step :
      (fuel : ℕ) (bytes rest : List ℕ) (v : ℕ) (dest : List FieldValueRef)
      → 1 ≤ length bytes
      → read (bytes ++ rest) ≡ ok (v, rest)
      → expand_loop read convert (suc fuel) (bytes ++ rest) dest
        ≡ (convert v >>= λ x. expand_loop read convert fuel rest (dest ++ x ∷ []))
  unfolding expand_loop
  expand_step fuel [] rest v dest h e = absurd (omega arith)
  expand_step fuel (b ∷ bytes) rest v dest h e = rw e

  expand_loop_end :
      (tail : List ℕ) (end : Option ParseError) (fuel : ℕ) (dest : List FieldValueRef)
      → Stops read tail end
      → length tail ≤ fuel
      → expand_loop read convert fuel tail dest ≡ finish end (dest ++ [])
  unfolding expand_loop
  expand_loop_end [] none fuel dest h l = rw append-nil
  expand_loop_end [] (some e) fuel dest h l = absurd h
  expand_loop_end (b ∷ tail) none fuel dest h l = absurd h
  expand_loop_end (b ∷ tail) (some e) zero dest h l = absurd (omega arith)
  expand_loop_end (b ∷ tail) (some e) (suc fuel) dest h l = rw h

  expand_loop-encode :
      (tail : List ℕ) (end : Option ParseError) (vs : List ℕ) (fuel : ℕ) (dest : List FieldValueRef)
      → Stops read tail end
      → All P vs
      → length (encode_all encode vs ++ tail) ≤ fuel
      → expand_loop read convert fuel (encode_all encode vs ++ tail) dest
        ≡ (convert_all convert vs >>= λ xs. finish end (dest ++ xs))
  unfolding encode_all convert_all
  expand_loop-encode tail end [] fuel dest st p h = expand_loop_end tail end fuel dest st h
  expand_loop-encode tail end (v ∷ vs) zero dest st p h = absurd (
      omega (
        arith,
        match.nonempty v,
        length-append (encode v ++ encode_all encode vs) tail,
        length-append (encode v) (encode_all encode vs),
      ))
  expand_loop-encode tail end (v ∷ vs) (suc fuel) dest st p h =
      rw (append_assoc (encode v) (encode_all encode vs) tail) (
        expand_step fuel (encode v) (encode_all encode vs ++ tail) v dest (match.nonempty v)
          (match.reads v (encode_all encode vs ++ tail) p.0)
        ∙ converted
            (λ x. expand_loop-encode tail end vs fuel (dest ++ x ∷ []) st p.1 (
              omega (
                arith,
                match.nonempty v,
                length-append (encode v ++ encode_all encode vs) tail,
                length-append (encode v) (encode_all encode vs),
                length-append (encode_all encode vs) tail,
              )))
            (convert v))
    where
      converted :
          ((x : FieldValueRef)
            → expand_loop read convert fuel (encode_all encode vs ++ tail) (dest ++ x ∷ [])
              ≡ (convert_all convert vs >>= λ xs. finish end ((dest ++ x ∷ []) ++ xs)))
          → (m : ParseResult FieldValueRef)
          → (m >>= λ x.
              expand_loop read convert fuel (encode_all encode vs ++ tail) (dest ++ x ∷ []))
            ≡ ((m >>= λ x. convert_all convert vs >>= λ xs. ok (x ∷ xs)) >>= λ xs.
                finish end (dest ++ xs))
      converted ih (ok x) = ih x ∙ bind_convert end (convert_all convert vs) dest x
      converted ih (err e) = refl
      converted ih panic = refl
      converted ih stuck = refl

length-encode_varint : (v : ℕ) → 1 ≤ length (encode_varint v)
unfolding encode_varint encode_groups
length-encode_varint v = ground arith

varint_Matches : Matches try_read_varint encode_varint (λ v. v < 2 ^ 64)
varint_Matches = record { reads = try_read_varint-encode; nonempty = length-encode_varint }

read_raw-encode :
    (n : ℕ) (field_num : ℤ) (v : ℕ) (rest : List ℕ)
    → v < 256 ^ n
    → read_raw n field_num (to_le_bytes n v ++ rest) ≡ ok (v, rest)
unfolding read_raw read_fixed_chunk
read_raw-encode n field_num v rest h =
    let e = length-to_le_bytes n v in
    let taken = rw e at (take_append (to_le_bytes n v) rest) in
    let left = rw e at (drop_append (to_le_bytes n v) rest) in
    ground
      (arith, length-append (to_le_bytes n v) rest, taken, left, from_le_bytes-to_le_bytes n v h)

raw_Matches :
    (n : ℕ) (field_num : ℤ)
    → 1 ≤ n
    → Matches (read_raw n field_num) (to_le_bytes n) (λ v. v < 256 ^ n)
raw_Matches n field_num h = record {
  reads = read_raw-encode n field_num;
  nonempty = λ v. omega (arith, length-to_le_bytes n v);
}

-- How a type's values stand in a packed field: the bytes of one, what it is when sent alone, and
-- the numbers that it takes.
pub record Encoding : Type 1 where
  pub encode : ℕ → List ℕ
  pub alone : ℕ → WireValue
  pub Fits : ℕ → Type 0

abbrev pub varint_encoding : Encoding
varint_encoding = record {
  encode = encode_varint;
  alone = WireValue.varint;
  Fits = λ v. v < 2 ^ 64;
}

abbrev pub fixed32_encoding : Encoding
fixed32_encoding = record { encode = to_le_bytes 4; alone = WireValue.i32; Fits = λ v. v < 256 ^ 4 }

abbrev pub fixed64_encoding : Encoding
fixed64_encoding = record { encode = to_le_bytes 8; alone = WireValue.i64; Fits = λ v. v < 256 ^ 8 }

abbrev pub encoding_of : PackedField → Encoding
encoding_of (PackedField.varint raw) = varint_encoding
encoding_of (PackedField.fixed32 raw) = fixed32_encoding
encoding_of (PackedField.fixed64 raw) = fixed64_encoding

abbrev pub raw_bytes : PackedField → List ℕ
raw_bytes (PackedField.varint raw) = raw
raw_bytes (PackedField.fixed32 raw) = raw
raw_bytes (PackedField.fixed64 raw) = raw

packed_convert : PackedField → FieldType → ℕ → ℤ → ParseResult FieldValueRef
packed_convert (PackedField.varint raw) t v n = packed_varint t v n
packed_convert (PackedField.fixed32 raw) t v n = packed_fixed32 t v n
packed_convert (PackedField.fixed64 raw) t v n = packed_fixed64 t v n

abbrev pub reader_of : PackedField → ℤ → Reader
reader_of (PackedField.varint raw) n = try_read_varint
reader_of (PackedField.fixed32 raw) n = read_raw 4 n
reader_of (PackedField.fixed64 raw) n = read_raw 8 n

abbrev same_kind : PackedField → PackedField → Bool
same_kind (PackedField.varint raw) (PackedField.varint other) = true
same_kind (PackedField.fixed32 raw) (PackedField.fixed32 other) = true
same_kind (PackedField.fixed64 raw) (PackedField.fixed64 other) = true
same_kind a b = false

-- The scalar that a value of the packed field is when sent alone. A type whose values are not packed
-- in this way, or not at all, is an error.
unfoldable pub scalar_of : PackedField → FieldType → ℕ → ℤ → ParseResult FieldValueRef
unfolding from_bytes convert_scalar_value
scalar_of packed t v n = do
  made ← from_bytes [] t n
  if same_kind made packed
      then convert_scalar_value t ((encoding_of packed).alone v) n
      else err (invalid_packed_field_type n)

packed_convert_lem :
    (packed : PackedField) (t : FieldType) (v : ℕ) (n : ℤ)
    → packed_convert packed t v n ≡ scalar_of packed t v n
unfolding packed_convert packed_varint packed_fixed32 packed_fixed64 scalar_of try_as_i32 try_as_u32
    try_as_i64 try_as_u64 try_as_bool try_as_float try_as_double
packed_convert_lem (PackedField.varint r) FieldType.double v n = refl
packed_convert_lem (PackedField.varint r) FieldType.float v n = refl
packed_convert_lem (PackedField.varint r) FieldType.int64 v n = refl
packed_convert_lem (PackedField.varint r) FieldType.uint64 v n = refl
packed_convert_lem (PackedField.varint r) FieldType.int32 v n = refl
packed_convert_lem (PackedField.varint r) FieldType.fixed64 v n = refl
packed_convert_lem (PackedField.varint r) FieldType.fixed32 v n = refl
packed_convert_lem (PackedField.varint r) FieldType.bool v n = refl
packed_convert_lem (PackedField.varint r) FieldType.string v n = refl
packed_convert_lem (PackedField.varint r) FieldType.group v n = refl
packed_convert_lem (PackedField.varint r) FieldType.message v n = refl
packed_convert_lem (PackedField.varint r) FieldType.bytes v n = refl
packed_convert_lem (PackedField.varint r) FieldType.uint32 v n = refl
packed_convert_lem (PackedField.varint r) FieldType.enum v n = refl
packed_convert_lem (PackedField.varint r) FieldType.sfixed32 v n = refl
packed_convert_lem (PackedField.varint r) FieldType.sfixed64 v n = refl
packed_convert_lem (PackedField.varint r) FieldType.sint32 v n = refl
packed_convert_lem (PackedField.varint r) FieldType.sint64 v n = refl
packed_convert_lem (PackedField.fixed32 r) FieldType.double v n = refl
packed_convert_lem (PackedField.fixed32 r) FieldType.float v n = refl
packed_convert_lem (PackedField.fixed32 r) FieldType.int64 v n = refl
packed_convert_lem (PackedField.fixed32 r) FieldType.uint64 v n = refl
packed_convert_lem (PackedField.fixed32 r) FieldType.int32 v n = refl
packed_convert_lem (PackedField.fixed32 r) FieldType.fixed64 v n = refl
packed_convert_lem (PackedField.fixed32 r) FieldType.fixed32 v n = refl
packed_convert_lem (PackedField.fixed32 r) FieldType.bool v n = refl
packed_convert_lem (PackedField.fixed32 r) FieldType.string v n = refl
packed_convert_lem (PackedField.fixed32 r) FieldType.group v n = refl
packed_convert_lem (PackedField.fixed32 r) FieldType.message v n = refl
packed_convert_lem (PackedField.fixed32 r) FieldType.bytes v n = refl
packed_convert_lem (PackedField.fixed32 r) FieldType.uint32 v n = refl
packed_convert_lem (PackedField.fixed32 r) FieldType.enum v n = refl
packed_convert_lem (PackedField.fixed32 r) FieldType.sfixed32 v n = refl
packed_convert_lem (PackedField.fixed32 r) FieldType.sfixed64 v n = refl
packed_convert_lem (PackedField.fixed32 r) FieldType.sint32 v n = refl
packed_convert_lem (PackedField.fixed32 r) FieldType.sint64 v n = refl
packed_convert_lem (PackedField.fixed64 r) FieldType.double v n = refl
packed_convert_lem (PackedField.fixed64 r) FieldType.float v n = refl
packed_convert_lem (PackedField.fixed64 r) FieldType.int64 v n = refl
packed_convert_lem (PackedField.fixed64 r) FieldType.uint64 v n = refl
packed_convert_lem (PackedField.fixed64 r) FieldType.int32 v n = refl
packed_convert_lem (PackedField.fixed64 r) FieldType.fixed64 v n = refl
packed_convert_lem (PackedField.fixed64 r) FieldType.fixed32 v n = refl
packed_convert_lem (PackedField.fixed64 r) FieldType.bool v n = refl
packed_convert_lem (PackedField.fixed64 r) FieldType.string v n = refl
packed_convert_lem (PackedField.fixed64 r) FieldType.group v n = refl
packed_convert_lem (PackedField.fixed64 r) FieldType.message v n = refl
packed_convert_lem (PackedField.fixed64 r) FieldType.bytes v n = refl
packed_convert_lem (PackedField.fixed64 r) FieldType.uint32 v n = refl
packed_convert_lem (PackedField.fixed64 r) FieldType.enum v n = refl
packed_convert_lem (PackedField.fixed64 r) FieldType.sfixed32 v n = refl
packed_convert_lem (PackedField.fixed64 r) FieldType.sfixed64 v n = refl
packed_convert_lem (PackedField.fixed64 r) FieldType.sint32 v n = refl
packed_convert_lem (PackedField.fixed64 r) FieldType.sint64 v n = refl

expand_into_convert :
    (packed : PackedField) (t : FieldType) (dest : List FieldValueRef) (n : ℤ) (vs tail : List ℕ)
    (end : Option ParseError)
    → raw_bytes packed ≡ encode_all (encoding_of packed).encode vs ++ tail
    → All (encoding_of packed).Fits vs
    → Stops (reader_of packed n) tail end
    → expand_into packed t dest n
      ≡ (convert_all (λ v. packed_convert packed t v n) vs >>= λ xs. finish end (dest ++ xs))
unfolding expand_into packed_convert
expand_into_convert (PackedField.varint raw) t dest n vs tail end e p st = rw e (
    expand_loop-encode _ _ _ varint_Matches (λ v. packed_varint t v n) tail end vs
      (length (encode_all encode_varint vs ++ tail)) dest st p (omega arith))
expand_into_convert (PackedField.fixed32 raw) t dest n vs tail end e p st = rw e (
    expand_loop-encode _ _ _ (raw_Matches 4 n (omega arith)) (λ v. packed_fixed32 t v n) tail end vs
      (length (encode_all (to_le_bytes 4) vs ++ tail)) dest st p (omega arith))
expand_into_convert (PackedField.fixed64 raw) t dest n vs tail end e p st = rw e (
    expand_loop-encode _ _ _ (raw_Matches 8 n (omega arith)) (λ v. packed_fixed64 t v n) tail end vs
      (length (encode_all (to_le_bytes 8) vs ++ tail)) dest st p (omega arith))

-- The bytes of a packed field that hold the values `vs` one behind another, and then nothing or bytes
-- on which the reader fails, are expanded, behind what `dest` held, to the scalars that the same values
-- give when they are sent one by one, or to the first error: that of a type which is not packed in this
-- way, or that of the reader.
pub expand_into-convert_scalar_value :
    (packed : PackedField) (t : FieldType) (dest : List FieldValueRef) (n : ℤ) (vs tail : List ℕ)
    (end : Option ParseError)
    → raw_bytes packed ≡ encode_all (encoding_of packed).encode vs ++ tail
    → All (encoding_of packed).Fits vs
    → Stops (reader_of packed n) tail end
    → expand_into packed t dest n
      ≡ (convert_all (λ v. scalar_of packed t v n) vs >>= λ xs. finish end (dest ++ xs))
expand_into-convert_scalar_value packed t dest n vs tail end e p st =
    rw (← fun_ext (λ v. packed_convert_lem packed t v n))
      (expand_into_convert packed t dest n vs tail end e p st)
