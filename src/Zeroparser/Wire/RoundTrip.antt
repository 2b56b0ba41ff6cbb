-- ===== src/Zeroparser/Wire/RoundTrip.antt =====
-- The wire format, written as an encoder in plain arithmetic, and what the readers make of it.
use zerobus_sdk.Common.{
  ℕ, zero, suc, ◌+◌, ◌*◌, ◌/◌, ◌%◌, ◌^◌, ◌≤◌, ◌<◌, ◌≡◌, ◌∙◌, arith, List, [], ◌∷◌, ◌++◌, ltb,
  if◌then◌else◌,
}
use zerobus_sdk.Zeroparser.Errors.{ok}
use zerobus_sdk.Zeroparser.Wire.{varint_loop, parse_varint_slow, try_read_varint}
use zerobus_sdk.Zeroparser.Wire.Varint.{
  ShiftAt, group_added, last_added, power_fits, shift_seven, group_le, try_read_varint-slow,
}

-- The groups of seven bits of `v`, the lowest first, each but the last with its top bit set.
unfoldable pub encode_groups : ℕ → ℕ → List ℕ
encode_groups zero v = v ∷ []
encode_groups (suc n) v =
    let rest = encode_groups n (v / 128) in if ltb v 128 then v ∷ [] else (v % 128 + 128) ∷ rest

-- A u64 has ten groups at most.
unfoldable pub encode_varint : ℕ → List ℕ
encode_varint v = encode_groups 9 v

regroup : (w q r t : ℕ) → w ≡ 128 * q + r → r * t + q * (128 * t) ≡ w * t
regroup w q r t h = rw h omega arith

low_and_rest : (w s : ℕ) → w % 128 * 2 ^ s + w / 128 * 2 ^ (s + 7) ≡ w * 2 ^ s
low_and_rest w s = rw (shift_seven s) (regroup w (w / 128) (w % 128) (2 ^ s) (omega arith))

ends_loop :
    (n w v s : ℕ) (rest : List ℕ)
    → w < 128
    → v < 2 ^ s
    → ShiftAt (suc n) s
    → varint_loop (suc n) (w ∷ rest) v s ≡ ok (v + w * 2 ^ s, rest)
unfolding varint_loop
ends_loop n w v s rest h hv hs = ground (arith, group_added w v s, power_fits n s)

goes_on :
    (n g v s : ℕ) (rest : List ℕ)
    → g < 128
    → v < 2 ^ s
    → ShiftAt (suc n) s
    → varint_loop (suc n) ((g + 128) ∷ rest) v s ≡ varint_loop n rest (v + g * 2 ^ s) (s + 7)
unfolding varint_loop
goes_on n g v s rest h hv hs = ground (arith, group_added (g + 128) v s, power_fits n s)

encoded_last :
    (w v s : ℕ) (rest : List ℕ)
    → w ≤ 1
    → v < 2 ^ s
    → s ≡ 63
    → varint_loop zero (w ∷ rest) v s ≡ ok (v + w * 2 ^ s, rest)
unfolding varint_loop
encoded_last w v s rest hw hv e = rw e (ground (arith, last_added w v (rw e at hv)))

-- `w` is what is still to be read, and it counts from bit `s` on.
varint_loop-encode :
    (n w v s : ℕ) (rest : List ℕ)
    → w < 2 * 128 ^ n
    → v < 2 ^ s
    → ShiftAt n s
    → varint_loop n (encode_groups n w ++ rest) v s ≡ ok (v + w * 2 ^ s, rest)
unfolding encode_groups
varint_loop-encode zero w v s rest hw hv hs = encoded_last w v s rest (omega arith) hv (omega arith)
varint_loop-encode (suc n) w v s rest hw hv hs = ground (
  arith,
  ends_loop n w v s rest,
  goes_on n (w % 128) v s (encode_groups n (w / 128) ++ rest),
  group_le (w % 128) (2 ^ s),
  shift_seven s,
  low_and_rest w s,
  varint_loop-encode n (w / 128) (v + w % 128 * 2 ^ s) (s + 7) rest (omega arith),
)

-- The readers give back any u64 that was encoded, and leave what follows it.
pub try_read_varint-encode :
    (v : ℕ) (rest : List ℕ) → v < 2 ^ 64 → try_read_varint (encode_varint v ++ rest) ≡ ok (v, rest)
unfolding encode_varint parse_varint_slow
try_read_varint-encode v rest h =
    try_read_varint-slow (encode_varint v ++ rest) ∙ ground (arith, varint_loop-encode 9 v 0 0 rest)
