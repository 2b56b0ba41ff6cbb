-- ===== src/Zeroparser/Wire/Bounds.antt =====
-- What the readers take from any input, well formed or not, and when they refuse.
use zerobus_sdk.Common.{
  ℕ, zero, suc, ◌+◌, ◌*◌, ◌%◌, ◌^◌, ◌≤◌, ◌<◌, ◌≡◌, refl, ap, sym, ◌∙◌, arith, List, [], ◌∷◌, ◌++◌,
  length, ltb, inl, inr, All, Bool-cases, ◌↔◌,
}
use zerobus_sdk.Common.Bits.{bit_and, bit_or}
use zerobus_sdk.Zeroparser.Errors.{ok, err, Returns, truncated_varint}
use zerobus_sdk.Zeroparser.Wire.{
  shl64, varint_last, varint_loop, parse_varint_slow, try_read_varint,
}
use zerobus_sdk.Zeroparser.Wire.Varint.{
  ShiftAt, group_added, last_added, power_fits, shift_seven, group_le, try_read_varint-slow,
}

-- `rest` is what a reader leaves of `bytes` when it takes 1 to `most` of them.
pub record Takes {ℓ} {A : Type ℓ} (bytes rest : List A) (most : ℕ) : Type ℓ where
  pub front : List A
  pub split : bytes ≡ front ++ rest
  pub some_taken : 1 ≤ length front
  pub few_taken : length front ≤ most

abbrev pub Continue : List ℕ → Type 0
Continue = All (λ b. 128 ≤ b)

Takes-cons {ℓ} :
    {A : Type ℓ} (b : A) {bytes rest : List A} {most : ℕ}
    → Takes bytes rest most
    → Takes (b ∷ bytes) rest (suc most)
Takes-cons b t = record {
  front = b ∷ t.front;
  split = ap (◌∷◌ b) t.split;
  some_taken = omega arith;
  few_taken = omega (arith, t.few_taken);
}

Takes-one {ℓ} :
    {A : Type ℓ} (b : A) {bytes rest : List A} (most : ℕ)
    → bytes ≡ rest
    → Takes (b ∷ bytes) rest (suc most)
Takes-one b most e = record {
  front = b ∷ [];
  split = ap (◌∷◌ b) e;
  some_taken = omega arith;
  few_taken = omega arith;
}

varint_last-Takes :
    (bytes : List ℕ) (v u : ℕ) (rest : List ℕ)
    → v < 2 ^ 63
    → varint_last bytes v 63 ≡ ok (u, rest)
    → (u < 2 ^ 64) × Takes bytes rest 1
unfolding varint_last
varint_last-Takes [] v u rest hv e = cc
varint_last-Takes (b ∷ bytes) v u rest hv e =
    (ground (arith, last_added b v), Takes-one b 0 (ground arith))

-- The value read so far stays below the shift, so no bit is lost before the tenth byte.
varint_loop-Takes :
    (n : ℕ) (bytes : List ℕ) (v s u : ℕ) (rest : List ℕ)
    → v < 2 ^ s
    → ShiftAt n s
    → varint_loop n bytes v s ≡ ok (u, rest)
    → (u < 2 ^ 64) × Takes bytes rest (suc n)
unfolding varint_loop
varint_loop-Takes zero bytes v s u rest hv hs e =
    let at_end : s ≡ 63 = omega arith in
    varint_last-Takes bytes v u rest (rw at_end at hv) (rw at_end at e)
varint_loop-Takes (suc n) [] v s u rest hv hs e = cc
varint_loop-Takes (suc n) (b ∷ bytes) v s u rest hv hs e = elim (Bool-cases (ltb b 0x80)) [
  | inl last ↦ (
    ground (
      arith,
      group_added b v s,
      power_fits n s,
      shift_seven s,
      group_le (b % 128) (2 ^ s) (omega arith),
    ),
    Takes-one b (suc n) (ground arith),
  )
  | inr more ↦
      let (small, takes) =
        varint_loop-Takes n bytes (v + b % 128 * 2 ^ s) (s + 7) u rest
          (omega (arith, power_fits n s, shift_seven s, group_le (b % 128) (2 ^ s) (omega arith)))
          (omega arith)
          (ground (
            arith,
            group_added b v s,
            power_fits n s,
            shift_seven s,
            group_le (b % 128) (2 ^ s) (omega arith),
          )) in
      (small, Takes-cons b takes)
]

-- A varint that is read is a u64, and its encoding is the first one to ten bytes of the input.
pub try_read_varint-Takes :
    (bytes : List ℕ) (v : ℕ) (rest : List ℕ)
    → try_read_varint bytes ≡ ok (v, rest)
    → (v < 2 ^ 64) × Takes bytes rest 10
unfolding parse_varint_slow
try_read_varint-Takes bytes v rest e =
    varint_loop-Takes 9 bytes 0 0 v rest (omega arith) (omega arith)
      (sym (try_read_varint-slow bytes) ∙ e)

varint_loop_truncated :
    (n : ℕ) (bytes : List ℕ) (v s : ℕ)
    → varint_loop n bytes v s ≡ err truncated_varint
    → Continue bytes × (length bytes ≤ n)
unfolding varint_loop
varint_loop_truncated zero [] v s e = (tt, omega arith)
varint_loop_truncated zero (b ∷ bytes) v s e = unfold varint_last in ground arith
varint_loop_truncated (suc n) [] v s e = (tt, omega arith)
varint_loop_truncated (suc n) (b ∷ bytes) v s e =
    ground (arith, varint_loop_truncated n bytes (bit_or v (shl64 (bit_and b 0x7f) s)) (s + 7))

truncated_varint_loop :
    (n : ℕ) (bytes : List ℕ) (v s : ℕ)
    → Continue bytes
    → length bytes ≤ n
    → varint_loop n bytes v s ≡ err truncated_varint
unfolding varint_loop varint_last
truncated_varint_loop zero [] v s c h = refl
truncated_varint_loop zero (b ∷ bytes) v s c h = absurd (omega arith)
truncated_varint_loop (suc n) [] v s c h = refl
truncated_varint_loop (suc n) (b ∷ bytes) v s c h =
    ground (arith, truncated_varint_loop n bytes (bit_or v (shl64 (bit_and b 0x7f) s)) (s + 7))

-- `TruncatedVarint` is returned exactly when every byte of the input asks for another and there
-- are fewer than ten.
pub truncated_iff :
    (bytes : List ℕ)
    → (try_read_varint bytes ≡ err truncated_varint) ↔ (Continue bytes × (length bytes ≤ 9))
unfolding parse_varint_slow
truncated_iff bytes = (
  λ e. varint_loop_truncated 9 bytes 0 0 (sym (try_read_varint-slow bytes) ∙ e),
  λ h. try_read_varint-slow bytes ∙ truncated_varint_loop 9 bytes 0 0 h.0 h.1,
)

varint_loop-Returns : (n : ℕ) (bytes : List ℕ) (v s : ℕ) → Returns (varint_loop n bytes v s)
unfolding varint_loop varint_last
varint_loop-Returns zero [] v s = tt
varint_loop-Returns zero (b ∷ bytes) v s = ground arith
varint_loop-Returns (suc n) [] v s = tt
varint_loop-Returns (suc n) (b ∷ bytes) v s =
    ground (arith, varint_loop-Returns n bytes (bit_or v (shl64 (bit_and b 0x7f) s)) (s + 7))

pub try_read_varint-Returns : (bytes : List ℕ) → Returns (try_read_varint bytes)
unfolding parse_varint_slow
try_read_varint-Returns bytes = rw (try_read_varint-slow bytes) (varint_loop-Returns 9 bytes 0 0)
