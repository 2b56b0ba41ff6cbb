-- ===== src/Zeroparser/Wire/Zigzag.antt =====
-- `decode_zigzag32` and `decode_zigzag64` undo the zigzag encoding, in which the integers alternate
-- 0, -1, 1, -2, ….
use zerobus_sdk.Common.{ℕ, ◌+◌, ◌-◌, ◌*◌, ◌/◌, ◌%◌, ◌^◌, ◌≤◌, ◌<◌, ◌≡◌, arith, if◌then◌else◌, ◌==◌}
use native.Mathlib.Nat.{mod_self, mod-eq_of_lt, sub-zero}
use zerobus_sdk.Common.Bits.{bit_and, bit_xor, bit_and_1, bit_xor_ones, bit_xor-zero}
use zerobus_sdk.Common.Int.{ℤ, pos, negsuc, IsI32, IsI64}
use zerobus_sdk.Zeroparser.Wire.{decode_zigzag32, decode_zigzag64, neg_bits}

unfoldable pub encode_zigzag : ℤ → ℕ
encode_zigzag (pos n) = 2 * n
encode_zigzag (negsuc n) = 2 * n + 1

-- An even number stands for its half, an odd one for minus its half less one.
unzigzag : ℕ → ℤ
unzigzag n = if n % 2 == 0 then pos (n / 2) else negsuc (n / 2)

neg_bits_zero : (w : ℕ) → neg_bits w 0 ≡ 0
neg_bits_zero w = rw sub-zero (mod_self (2 ^ w))

neg_bits_one : (w : ℕ) → 2 ≤ 2 ^ w → neg_bits w 1 ≡ 2 ^ w - 1
neg_bits_one w h = mod-eq_of_lt (omega arith)

xor_sign :
    (n w : ℕ)
    → n / 2 < 2 ^ w
    → 2 ≤ 2 ^ w
    → bit_xor (n / 2) (neg_bits w (bit_and n 1)) ≡ (if n % 2 == 0 then n / 2 else 2 ^ w - 1 - n / 2)
xor_sign n w h hw = ground (
  arith,
  bit_and_1 n,
  neg_bits_zero w,
  neg_bits_one w hw,
  bit_xor_ones w (n / 2) h,
  bit_xor-zero (n / 2) (n / 2) (omega arith),
)

decode_zigzag32_lem : (n : ℕ) → n < 2 ^ 32 → decode_zigzag32 n ≡ unzigzag n
unfolding decode_zigzag32 unzigzag
decode_zigzag32_lem n h = ground (arith, xor_sign n 32)

decode_zigzag64_lem : (n : ℕ) → n < 2 ^ 64 → decode_zigzag64 n ≡ unzigzag n
unfolding decode_zigzag64 unzigzag
decode_zigzag64_lem n h = ground (arith, xor_sign n 64)

-- Every i32 is decoded from its encoding, and every u32 is the encoding of what it decodes to.
decode_zigzag32_inverse :
    (z : ℤ) (n : ℕ)
    → IsI32 z
    → n < 2 ^ 32
    → (decode_zigzag32 (encode_zigzag z) ≡ z) × (encode_zigzag (decode_zigzag32 n) ≡ n)
unfolding encode_zigzag unzigzag
decode_zigzag32_inverse z n hz hn = (
  rw (decode_zigzag32_lem (encode_zigzag z) (ground arith)) (ground arith),
  rw (decode_zigzag32_lem n hn) (ground arith),
)

-- Every i64 is decoded from its encoding, and every u64 is the encoding of what it decodes to.
decode_zigzag64_inverse :
    (z : ℤ) (n : ℕ)
    → IsI64 z
    → n < 2 ^ 64
    → (decode_zigzag64 (encode_zigzag z) ≡ z) × (encode_zigzag (decode_zigzag64 n) ≡ n)
unfolding encode_zigzag unzigzag
decode_zigzag64_inverse z n hz hn = (
  rw (decode_zigzag64_lem (encode_zigzag z) (ground arith)) (ground arith),
  rw (decode_zigzag64_lem n hn) (ground arith),
)
