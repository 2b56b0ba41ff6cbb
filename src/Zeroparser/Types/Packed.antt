-- ===== src/Zeroparser/Types/Packed.antt =====
-- Packed repeated fields: the loops end on every input, and a packed field means the same as its
-- values sent one by one.

use zerobus_sdk.Common.{
  ℕ, zero, suc, ◌≤◌, ◌<◌, ◌≡◌, arith, List, [], ◌∷◌, ◌++◌, length, length-drop,
}
use zerobus_sdk.Common.Int.{ℤ}
use zerobus_sdk.Zeroparser.Errors.{ParseResult, ok, Returns, Returns->>=}
use zerobus_sdk.Zeroparser.Wire.{try_read_varint}
use zerobus_sdk.Zeroparser.Wire.Bounds.{try_read_varint-Returns}
use zerobus_sdk.Zeroparser.Wire.Fields.{varint_shrinks}
use zerobus_sdk.Zeroparser.Types.{
  FieldType, FieldValueRef, PackedField, packed_varint, packed_fixed32, packed_fixed64,
  read_fixed_chunk, read_raw, Reader, expand_loop, expand_into,
}

-- A reader that returns, and takes a byte at least.
pub record IsReader (read : Reader) : Type 0 where
  pub returns : (bytes : List ℕ) → Returns (read bytes)
  pub shrinks :
      (bytes : List ℕ) (v : ℕ) (rest : List ℕ)
      → read bytes ≡ ok (v, rest)
      → length rest < length bytes

varint-IsReader : IsReader try_read_varint
varint-IsReader = record { returns = try_read_varint-Returns; shrinks = varint_shrinks }

read_raw-Returns : (n : ℕ) (field_num : ℤ) (bytes : List ℕ) → Returns (read_raw n field_num bytes)
unfolding read_raw read_fixed_chunk
read_raw-Returns n field_num bytes = ground arith

read_raw_shrinks :
    (n : ℕ) (field_num : ℤ) (bytes : List ℕ) (v : ℕ) (rest : List ℕ)
    → 1 ≤ n
    → read_raw n field_num bytes ≡ ok (v, rest)
    → length rest < length bytes
unfolding read_raw read_fixed_chunk
read_raw_shrinks n field_num bytes v rest h e = ground (arith, length-drop n bytes)

read_raw-IsReader : (n : ℕ) (field_num : ℤ) → 1 ≤ n → IsReader (read_raw n field_num)
read_raw-IsReader n field_num h = record {
  returns = read_raw-Returns n field_num;
  shrinks = λ bytes v rest e. read_raw_shrinks n field_num bytes v rest h e;
}

expand_loop-Returns :
    (read : Reader) (convert : ℕ → ParseResult FieldValueRef)
    → IsReader read
    → ((v : ℕ) → Returns (convert v))
    → (fuel : ℕ) (bytes : List ℕ) (dest : List FieldValueRef) → length bytes ≤ fuel
    → Returns (expand_loop read convert fuel bytes dest)
unfolding expand_loop
expand_loop-Returns read convert r c zero [] dest h = tt
expand_loop-Returns read convert r c (suc fuel) [] dest h = tt
expand_loop-Returns read convert r c zero (b ∷ bytes) dest h = absurd (omega arith)
expand_loop-Returns read convert r c (suc fuel) (b ∷ bytes) dest h =
    Returns->>= (read (b ∷ bytes)) _ (r.returns (b ∷ bytes)) λ p e.
      Returns->>= (convert p.0) _ (c p.0) λ value _.
        expand_loop-Returns read convert r c fuel p.1 (dest ++ value ∷ [])
          (omega (arith, r.shrinks (b ∷ bytes) p.0 p.1 e))

packed_varint-Returns : (t : FieldType) (v : ℕ) (n : ℤ) → Returns (packed_varint t v n)
unfolding packed_varint
packed_varint-Returns FieldType.int32 v n = tt
packed_varint-Returns t v n = tt

packed_fixed32-Returns : (t : FieldType) (v : ℕ) (n : ℤ) → Returns (packed_fixed32 t v n)
unfolding packed_fixed32
packed_fixed32-Returns FieldType.float v n = tt
packed_fixed32-Returns t v n = tt

packed_fixed64-Returns : (t : FieldType) (v : ℕ) (n : ℤ) → Returns (packed_fixed64 t v n)
unfolding packed_fixed64
packed_fixed64-Returns FieldType.double v n = tt
packed_fixed64-Returns t v n = tt

-- On any bytes, `expand_into` ends with a value or an error: the fuel is never used up.
pub expand_into-Returns :
    (packed : PackedField) (t : FieldType) (dest : List FieldValueRef) (n : ℤ)
    → Returns (expand_into packed t dest n)
unfolding expand_into
expand_into-Returns (PackedField.varint raw) t dest n =
    expand_loop-Returns try_read_varint (λ v. packed_varint t v n) varint-IsReader
      (λ v. packed_varint-Returns t v n) (length raw) raw dest (omega arith)
expand_into-Returns (PackedField.fixed32 raw) t dest n =
    expand_loop-Returns (read_raw 4 n) (λ v. packed_fixed32 t v n)
      (read_raw-IsReader 4 n (omega arith)) (λ v. packed_fixed32-Returns t v n) (length raw) raw
      dest (omega arith)
expand_into-Returns (PackedField.fixed64 raw) t dest n =
    expand_loop-Returns (read_raw 8 n) (λ v. packed_fixed64 t v n)
      (read_raw-IsReader 8 n (omega arith)) (λ v. packed_fixed64-Returns t v n) (length raw) raw
      dest (omega arith)
