-- ===== src/Zeroparser/Wire/Varint.antt =====
-- The two readers of a varint, in plain arithmetic.
use zerobus_sdk.Common.{ℕ, suc, ◌+◌, ◌*◌, ◌%◌, ◌^◌, ◌≤◌, ◌<◌, ◌≡◌, refl, arith, List, [], ◌∷◌}
use native.Mathlib.Numerals.{towards_suc}
use native.Mathlib.Nat.{pow-le-pow_right}
use zerobus_sdk.Common.Bits.{bit_and, bit_or, bit_and_127, bit_or_shifted}
use zerobus_sdk.Zeroparser.Wire.{shl64, parse_varint_slow, try_read_varint}

pub group_le : (x p : ℕ) → x < 128 → x * p + p ≤ 128 * p
group_le x p h = grind arith

pub shift_seven : (s : ℕ) → 2 ^ (s + 7) ≡ 128 * 2 ^ s
shift_seven s = simp towards_suc (omega arith)

-- One byte of the loop adds its seven bits at the shift, while they fit below bit 63.
pub group_added :
    (b v s : ℕ)
    → v < 2 ^ s
    → 128 * 2 ^ s ≤ 2 ^ 63
    → bit_or v (shl64 (bit_and b 0x7f) s) ≡ v + b % 128 * 2 ^ s
group_added b v s hv hs = rw (bit_and_127 b, fits) (bit_or_shifted s v (b % 128) hv)
  where
    fits : b % 128 * 2 ^ s % 2 ^ 64 ≡ b % 128 * 2 ^ s
    fits = omega (arith, group_le (b % 128) (2 ^ s) (omega arith))

pub last_added : (b v : ℕ) → v < 2 ^ 63 → b ≤ 1 → bit_or v (shl64 b 63) ≡ v + b * 2 ^ 63
last_added b v hv hb = rw fits (bit_or_shifted 63 v b hv)
  where
    fits : b * 2 ^ 63 % 2 ^ 64 ≡ b * 2 ^ 63
    fits = omega arith

-- The shift after `9 - n` rounds.
abbrev pub ShiftAt : ℕ → ℕ → Type 0
ShiftAt n s = s + 7 * n ≡ 63

pub power_fits : (n s : ℕ) → ShiftAt (suc n) s → 128 * 2 ^ s ≤ 2 ^ 63
power_fits n s h = omega (
  arith,
  shift_seven s,
  pow-le-pow_right {n = 2} (omega arith) {i = s + 7} {j = 63} (omega arith),
)

first_added : (b : ℕ) → bit_or 0 (shl64 (bit_and b 0x7f) 0) ≡ bit_and b 0x7f
first_added b = omega (arith, group_added b 0 0 (omega arith) (omega arith), bit_and_127 b)

low_byte : (b : ℕ) → b < 128 → bit_and b 0x7f ≡ b
low_byte b h = omega (arith, bit_and_127 b)

-- The arms for varints of one to five bytes compute what the loop does, on every input.
pub try_read_varint-slow : (bytes : List ℕ) → try_read_varint bytes ≡ parse_varint_slow bytes
unfolding try_read_varint
try_read_varint-slow [] = refl
try_read_varint-slow (b0 ∷ []) = ground (arith, first_added b0, low_byte b0)
try_read_varint-slow (b0 ∷ b1 ∷ []) = ground (arith, first_added b0, low_byte b0, low_byte b1)
try_read_varint-slow (b0 ∷ b1 ∷ b2 ∷ []) =
    ground (arith, first_added b0, low_byte b0, low_byte b1, low_byte b2)
try_read_varint-slow (b0 ∷ b1 ∷ b2 ∷ b3 ∷ []) =
    ground (arith, first_added b0, low_byte b0, low_byte b1, low_byte b2, low_byte b3)
try_read_varint-slow (b0 ∷ b1 ∷ b2 ∷ b3 ∷ b4 ∷ rest) =
    ground (arith, first_added b0, low_byte b0, low_byte b1, low_byte b2, low_byte b3, low_byte b4)
