-- ===== src/OffsetGenerator/Sequence.antt =====
-- Offsets come out in order, with no gap, from the position that the generator is set to.
use zerobus_sdk.Common.{
  ℕ, zero, suc, ◌+◌, ◌-◌, ◌^◌, ◌≤◌, ◌≡◌, refl, arith, none, some, List, [], ◌∷◌, if◌then◌else◌,
  ◌==◌,
}
use zerobus_sdk.Common.Int.{ℤ, pos, negsuc}
use zerobus_sdk.OffsetGenerator.{OffsetIdGenerator, last, set_next, next_times, add_one, sub_one}

-- The `n` numbers from `v` on.
abbrev pub range_from : ℕ → ℕ → List ℤ
range_from v zero = []
range_from v (suc n) = pos v ∷ range_from (suc v) n

-- The counter when the next offset is `v`.
abbrev pub before : ℕ → ℤ
before zero = negsuc 0
before (suc v) = pos v

pub add_one-before : (v : ℕ) → v + 1 ≤ 2 ^ 63 → add_one (before v) ≡ pos v
unfolding add_one
add_one-before zero h = refl
add_one-before (suc v) h = ground arith

next_times-before :
    (n v : ℕ) (g : OffsetIdGenerator)
    → g.last_offset_id ≡ before v
    → v + n ≤ 2 ^ 63
    → next_times n g ≡ (range_from v n, record { last_offset_id = before (v + n) })
unfolding next_times
next_times-before zero v g e h = let same : v + 0 ≡ v = omega arith in rw same (ground arith)
next_times-before (suc n) v g e h =
    let same : v + suc n ≡ suc v + n = omega arith in
    rw (same, e, add_one-before v (omega arith))
      (rw (next_times-before n (suc v) (record { last_offset_id = pos v }) refl (omega arith)))

last-before :
    (k : ℕ)
    → last (record { last_offset_id = before k }) ≡ (if k == 0 then none else some (pos (k - 1)))
unfolding last
last-before zero = refl
last-before (suc k) = ground arith

sub_one-pos : (v : ℕ) → sub_one (pos v) ≡ before v
unfolding sub_one
sub_one-pos zero = refl
sub_one-pos (suc v) = refl

-- After `set_next v` the next `n` calls return v, v + 1, …, v + n - 1, and `last` is the last of
-- them; before the first call it is v - 1, or nothing if v is 0.
set_next_sequence :
    (g : OffsetIdGenerator) (v n : ℕ)
    → v + n ≤ 2 ^ 63
    → ((next_times n (set_next g (pos v))).0 ≡ range_from v n)
      × (last (next_times n (set_next g (pos v))).1
          ≡ (if v + n == 0 then none else some (pos (v + n - 1))))
unfolding set_next
set_next_sequence g v n h =
    rw (next_times-before n v (record { last_offset_id = sub_one (pos v) }) (sub_one-pos v) h)
      (refl, last-before (v + n))
