-- ===== src/Common/Bits.antt =====
-- Masks and disjoint unions of bits as arithmetic. The binary operations of the numbers have no
-- laws at variables, so each law here comes from the recursion on the binary digits.
use Prim.Native.Nat.{
  ℕ, zero, suc, ◌+◌, ◌*◌, ◌/◌, ◌%◌, ◌^◌, ◌≤◌, ◌<◌, min, max, ◌-◌, digits, bit_and-bitwise,
  bit_or-bitwise, bit_xor-bitwise, differ,
}
use mathlib.Core.Path.{◌≡◌, ◌∙◌, refl, ap}
use native.Mathlib.Nat.{div-add-mod, add-mul-mod_self_left, mod-eq_of_lt, mod-lt, mul_assoc}
use native.Mathlib.Omega.{arith}
pub use Prim.Native.Nat.{bit_and, bit_or, bit_xor}

-- The count of digits to go does not matter once it covers the first number.
module _ (z : ℕ → ℕ) (f : ℕ → ℕ → ℕ) where
  digits_enough : (n m a b : ℕ) → a ≤ n → a ≤ m → digits z f n a b ≡ digits z f m a b
  digits_enough zero zero zero b p q = refl
  digits_enough zero (suc m) zero b p q = refl
  digits_enough (suc n) zero zero b p q = refl
  digits_enough (suc n) (suc m) zero b p q = refl
  digits_enough zero m (suc a) b p q = absurd (omega arith)
  digits_enough (suc n) zero (suc a) b p q = absurd (omega arith)
  digits_enough (suc n) (suc m) (suc a) b p q =
      omega (arith, digits_enough n m (suc a / 2) (b / 2) (omega arith) (omega arith))

zero-bit_and : (b : ℕ) → bit_and 0 b ≡ 0
zero-bit_and b = bit_and-bitwise 0 b

zero-bit_or : (b : ℕ) → bit_or 0 b ≡ b
zero-bit_or b = bit_or-bitwise 0 b

and_step : (a b : ℕ) → bit_and a b ≡ bit_and (a / 2) (b / 2) * 2 + min (a % 2) (b % 2)
and_step zero b = omega (arith, zero-bit_and b, zero-bit_and (b / 2))
and_step (suc a) b = omega (
  arith,
  bit_and-bitwise (suc a) b,
  bit_and-bitwise (suc a / 2) (b / 2),
  digits_enough (λ _. 0) min a (suc a / 2) (suc a / 2) (b / 2) (omega arith) (omega arith),
)

or_step : (a b : ℕ) → bit_or a b ≡ bit_or (a / 2) (b / 2) * 2 + max (a % 2) (b % 2)
or_step zero b = omega (arith, zero-bit_or b, zero-bit_or (b / 2))
or_step (suc a) b = omega (
  arith,
  bit_or-bitwise (suc a) b,
  bit_or-bitwise (suc a / 2) (b / 2),
  digits_enough (λ c. c) max a (suc a / 2) (suc a / 2) (b / 2) (omega arith) (omega arith),
)

bit_and_zero_below : (n a : ℕ) → a ≤ n → bit_and a 0 ≡ 0
bit_and_zero_below n zero h = refl
bit_and_zero_below zero (suc a) h = absurd (omega arith)
bit_and_zero_below (suc n) (suc a) h =
    omega (arith, and_step (suc a) 0, bit_and_zero_below n (suc a / 2) (omega arith))

pub bit_and_1 : (a : ℕ) → bit_and a 1 ≡ a % 2
bit_and_1 a = omega (arith, and_step a 1, bit_and_zero_below (a / 2) (a / 2) (omega arith))

bit_and_3 : (a : ℕ) → bit_and a 3 ≡ a % 4
bit_and_3 a = omega (arith, and_step a 3, bit_and_1 (a / 2))

pub bit_and_7 : (a : ℕ) → bit_and a 7 ≡ a % 8
bit_and_7 a = omega (arith, and_step a 7, bit_and_3 (a / 2))

bit_and_15 : (a : ℕ) → bit_and a 15 ≡ a % 16
bit_and_15 a = omega (arith, and_step a 15, bit_and_7 (a / 2))

bit_and_31 : (a : ℕ) → bit_and a 31 ≡ a % 32
bit_and_31 a = omega (arith, and_step a 31, bit_and_15 (a / 2))

bit_and_63 : (a : ℕ) → bit_and a 63 ≡ a % 64
bit_and_63 a = omega (arith, and_step a 63, bit_and_31 (a / 2))

pub bit_and_127 : (a : ℕ) → bit_and a 127 ≡ a % 128
bit_and_127 a = omega (arith, and_step a 127, bit_and_63 (a / 2))

two_pow_suc : (k : ℕ) → 2 ^ suc k ≡ 2 * 2 ^ k
two_pow_suc k = omega arith

-- A number below 2 ^ k and one shifted by k share no digit: their union is their sum.
bit_or_halves : (a c d : ℕ) → d ≡ 2 * c → bit_or (a / 2) c ≡ a / 2 + c → bit_or a d ≡ a + d
bit_or_halves a c d e h =
    let half : d / 2 ≡ c = omega arith in omega (arith, or_step a d, rw (← half) at h)

pub bit_or_shifted : (k a b : ℕ) → a < 2 ^ k → bit_or a (b * 2 ^ k) ≡ a + b * 2 ^ k
bit_or_shifted zero a b h =
    let none_left : a ≡ 0 = omega arith in rw none_left (omega (arith, zero-bit_or (b * 2 ^ 0)))
bit_or_shifted (suc k) a b h =
    bit_or_halves a (b * 2 ^ k) (b * 2 ^ suc k)
      (omega (arith, ap (λ (t : ℕ). b * t) (two_pow_suc k)))
      (bit_or_shifted k (a / 2) b (omega arith))

zero-bit_xor : (b : ℕ) → bit_xor 0 b ≡ b
zero-bit_xor b = bit_xor-bitwise 0 b

xor_step : (a b : ℕ) → bit_xor a b ≡ bit_xor (a / 2) (b / 2) * 2 + differ (a % 2) (b % 2)
xor_step zero b = differ_zero b
  where
    differ_zero : (b : ℕ) → bit_xor 0 b ≡ bit_xor (0 / 2) (b / 2) * 2 + differ (0 % 2) (b % 2)
    differ_zero b = omega (arith, zero-bit_xor b, zero-bit_xor (b / 2))
xor_step (suc a) b = omega (
  arith,
  bit_xor-bitwise (suc a) b,
  bit_xor-bitwise (suc a / 2) (b / 2),
  digits_enough (λ c. c) differ a (suc a / 2) (suc a / 2) (b / 2) (omega arith) (omega arith),
)

differ_flip : (x : ℕ) → x < 2 → differ x 1 ≡ 1 - x
differ_flip zero h = refl
differ_flip (suc zero) h = refl
differ_flip (suc (suc x)) h = absurd (omega arith)

differ_keep : (x : ℕ) → differ x 0 ≡ x
differ_keep zero = refl
differ_keep (suc x) = refl

xor_halves :
    (a m h : ℕ) → m ≡ 2 * h + 1 → bit_xor (a / 2) h ≡ h - a / 2 → a / 2 ≤ h → bit_xor a m ≡ m - a
xor_halves a m h e ih le =
    let half : m / 2 ≡ h = omega arith in
    let odd : m % 2 ≡ 1 = omega arith in
    let s = rw (half, odd) at (xor_step a m) in omega (arith, s, differ_flip (a % 2) (omega arith))

-- The exclusive or with `k` ones flips each of the `k` bits.
pub bit_xor_ones : (k a : ℕ) → a < 2 ^ k → bit_xor a (2 ^ k - 1) ≡ 2 ^ k - 1 - a
bit_xor_ones zero a h =
    let none_left : a ≡ 0 = omega arith in rw none_left (omega (arith, zero-bit_xor (2 ^ 0 - 1)))
bit_xor_ones (suc k) a h =
    xor_halves a (2 ^ suc k - 1) (2 ^ k - 1) (omega (arith, two_pow_suc k))
      (bit_xor_ones k (a / 2) (omega arith)) (omega arith)

pub bit_xor-zero : (n a : ℕ) → a ≤ n → bit_xor a 0 ≡ a
bit_xor-zero n zero h = refl
bit_xor-zero zero (suc a) h = absurd (omega arith)
bit_xor-zero (suc n) (suc a) h =
    omega
      (arith, xor_step (suc a) 0, differ_keep (suc a % 2), bit_xor-zero n (suc a / 2) (omega arith))

or_comm_below : (n a b : ℕ) → a ≤ n → bit_or a b ≡ bit_or b a
or_comm_below n zero b h = omega (arith, zero-bit_or b, or-zero b b (omega arith))
  where
    or-zero : (n b : ℕ) → b ≤ n → bit_or b 0 ≡ b
    or-zero n zero h = refl
    or-zero zero (suc b) h = absurd (omega arith)
    or-zero (suc n) (suc b) h =
        omega (arith, or_step (suc b) 0, or-zero n (suc b / 2) (omega arith))
or_comm_below zero (suc a) b h = absurd (omega arith)
or_comm_below (suc n) (suc a) b h =
    omega (
      arith,
      or_step (suc a) b,
      or_step b (suc a),
      or_comm_below n (suc a / 2) (b / 2) (omega arith),
    )

pub bit_or_comm : (a b : ℕ) → bit_or a b ≡ bit_or b a
bit_or_comm a b = or_comm_below a a b (omega arith)

-- A remainder by twice a number, from the halves.
mod_double : (a m : ℕ) → 0 < m → a % (2 * m) ≡ 2 * ((a / 2) % m) + a % 2
mod_double a m h =
    let q = a / 2 / m in
    let r = a / 2 % m in
    let r_lt : r < m = mod-lt (a / 2) h in
    let split : a ≡ 2 * r + a % 2 + 2 * m * q = omega (
      arith,
      div-add-mod (a / 2) m,
      ap (λ (x : ℕ). 2 * x) (div-add-mod (a / 2) m),
      mul_assoc 2 m q,
    ) in
    ap (λ (x : ℕ). x % (2 * m)) split
    ∙ add-mul-mod_self_left (2 * r + a % 2) (2 * m) q
    ∙ mod-eq_of_lt (omega arith)

two_pow_pos : (k : ℕ) → 0 < 2 ^ k
two_pow_pos zero = omega arith
two_pow_pos (suc k) = omega (arith, two_pow_suc k, two_pow_pos k)

pub bit_and_ones : (k a : ℕ) → bit_and a (2 ^ k - 1) ≡ a % 2 ^ k
bit_and_ones zero a = omega (arith, bit_and_zero_below a a (omega arith))
bit_and_ones (suc k) a =
    let half : (2 ^ suc k - 1) / 2 ≡ 2 ^ k - 1 = omega (arith, two_pow_suc k, two_pow_pos k) in
    let odd : (2 ^ suc k - 1) % 2 ≡ 1 = omega (arith, two_pow_suc k, two_pow_pos k) in
    let s = rw (half, odd) at (and_step a (2 ^ suc k - 1)) in
    omega (
      arith,
      s,
      bit_and_ones k (a / 2),
      mod_double a (2 ^ k) (two_pow_pos k),
      ap (λ (x : ℕ). a % x) (two_pow_suc k),
    )
