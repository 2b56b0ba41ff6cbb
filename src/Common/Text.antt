-- ===== src/Common/Text.antt =====
-- Texts: characters by their numbers, and Rust's `Display` of an unsigned integer.
use Prim.Native.Nat.{ℕ, zero, suc, ◌+◌, ◌-◌, ◌*◌, ◌/◌, ◌%◌, ◌<◌, compare, Ordering}
use Prim.Native.Char.{Char, char, code, nul, IsScalar}
use Prim.Native.String.{String, [], ◌∷◌, ◌++◌}
use text.Mathlib.TextLemmas.{cons-append, nil-append}
use mathlib.Core.Path.{◌≡◌, refl, ap, ◌∙◌, sym}
use mathlib.Core.Logic.{inl, inr}
use native.Mathlib.Omega.{arith}
use package.zerobus_sdk.Common.Tests.{ltb, if◌then◌else◌, Bool-cases, ltb→lt}

pub scalar : (n : ℕ) → compare n 55296 ≡ Ordering.lt → IsScalar n
scalar n h = rw h tt

-- The character of a number, for those below the surrogates.
abbrev of_code : (n : ℕ) (o : Ordering) → compare n 55296 ≡ o → Char
of_code n Ordering.lt h = char n (scalar n h)
of_code n Ordering.eq h = nul
of_code n Ordering.gt h = nul

unfoldable pub to_char : ℕ → Char
to_char n = of_code n (compare n 55296) refl

of_code-code :
    (n : ℕ) (o : Ordering) (h : compare n 55296 ≡ o) → n < 55296 → code (of_code n o h) ≡ n
of_code-code n Ordering.lt h l = refl
of_code-code n Ordering.eq h l = absurd (ground arith)
of_code-code n Ordering.gt h l = absurd (ground arith)

pub code-to_char : (n : ℕ) → n < 55296 → code (to_char n) ≡ n
unfolding to_char
code-to_char n l = of_code-code n (compare n 55296) refl l

-- The fuel is more than the number of digits.
unfoldable digits : ℕ → ℕ → String
digits zero n = []
digits (suc fuel) n =
    let rest = digits fuel (n / 10) in
    if ltb n 10 then to_char (48 + n) ∷ [] else rest ++ (to_char (48 + n % 10) ∷ [])

unfoldable pub to_string : ℕ → String
unfolding digits to_char
to_string n = digits (suc n) n

-- The number that digits stand for, after those read so far.
value : ℕ → String → ℕ
value acc [] = acc
value acc (c ∷ s) = value (acc * 10 + (code c - 48)) s

value-append :
    (acc : ℕ) (s : String) (c : Char) → value acc (s ++ (c ∷ [])) ≡ value acc s * 10 + (code c - 48)
unfolding value
value-append acc [] c = ap (value acc) (nil-append (c ∷ []))
value-append acc (d ∷ s) c =
    ap (value acc) (cons-append d s (c ∷ [])) ∙ value-append (acc * 10 + (code d - 48)) s c

value-digits : (fuel n : ℕ) → n < fuel → value 0 (digits fuel n) ≡ n
unfolding value digits
value-digits zero n h = absurd (omega arith)
value-digits (suc fuel) n h = elim (Bool-cases (ltb n 10)) [
  | inl small ↦
      let lt = ltb→lt n 10 small in
      let c = code-to_char (48 + n) (omega (arith, lt)) in rw small (omega (arith, c))
  | inr large ↦
      let c = code-to_char (48 + n % 10) (omega arith) in
      let rest = value-digits fuel (n / 10) (ground (arith, large, h)) in
      rw large
        (value-append 0 (digits fuel (n / 10)) (to_char (48 + n % 10)) ∙ omega (arith, c, rest))
]

pub to_string_inj : (m n : ℕ) → to_string m ≡ to_string n → m ≡ n
unfolding to_string
to_string_inj m n h =
    sym (value-digits (suc m) m (omega arith))
    ∙ ap (value 0) h
    ∙ value-digits (suc n) n (omega arith)

-- Every character of the text has a code with `P`.
abbrev pub AllChars : (ℕ → Type 0) → String → Type 0
AllChars P [] = Unit
AllChars P (c ∷ s) = P (code c) × AllChars P s

pub AllChars-append :
    (P : ℕ → Type 0) (s t : String) → AllChars P s → AllChars P t → AllChars P (s ++ t)
AllChars-append P [] t hs ht = rw (nil-append t) ht
AllChars-append P (c ∷ s) t (h, hs) ht = rw (cons-append c s t) (h, AllChars-append P s t hs ht)

digits-AllChars :
    (P : ℕ → Type 0) (fuel n : ℕ) → ((d : ℕ) → d < 10 → P (48 + d)) → AllChars P (digits fuel n)
unfolding digits
digits-AllChars P zero n h = tt
digits-AllChars P (suc fuel) n h = elim (Bool-cases (ltb n 10)) [
  | inl small ↦
      let lt = ltb→lt n 10 small in
      rw small (rw (code-to_char (48 + n) (omega (arith, lt))) (h n lt), tt)
  | inr large ↦ rw large (
      AllChars-append P (digits fuel (n / 10)) _ (digits-AllChars P fuel (n / 10) h)
        (rw (code-to_char (48 + n % 10) (omega arith)) (h (n % 10) (omega arith)), tt))
]

pub to_string-AllChars :
    (P : ℕ → Type 0) (n : ℕ) → ((d : ℕ) → d < 10 → P (48 + d)) → AllChars P (to_string n)
unfolding to_string
to_string-AllChars P n h = digits-AllChars P (suc n) n h
