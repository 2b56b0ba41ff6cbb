-- ===== src/OffsetGenerator.antt =====
-- rust/sdk/src/offset_generator.rs: the atomic counter of offsets. Each operation is one atomic
-- access, so calls by several threads are some sequence of these.
pub mod Sequence
mod Runs
use zerobus_sdk.Common.{
  ℕ, zero, suc, ◌^◌, ◌-◌, Option, none, some, List, [], ◌∷◌, if◌then◌else◌, ◌==◌,
}
use zerobus_sdk.Common.Int.{ℤ, pos, negsuc, eq_ℤ}

-- `x + 1` and `x - 1` on an i64, with the wrap-around of a release build.
unfoldable pub add_one : ℤ → ℤ
add_one (pos n) = if n == 2 ^ 63 - 1 then negsuc (2 ^ 63 - 1) else pos (suc n)
add_one (negsuc zero) = pos 0
add_one (negsuc (suc n)) = negsuc n

unfoldable pub sub_one : ℤ → ℤ
sub_one (pos zero) = negsuc 0
sub_one (pos (suc n)) = pos n
sub_one (negsuc n) = if n == 2 ^ 63 - 1 then pos (2 ^ 63 - 1) else negsuc (suc n)

pub record OffsetIdGenerator : Type 0 where
  pub last_offset_id : ℤ

unfoldable pub default : OffsetIdGenerator
default = record { last_offset_id = negsuc 0 }

-- The value returned, and the generator afterwards.
unfoldable pub next : OffsetIdGenerator → ℤ × OffsetIdGenerator
unfolding add_one
next g = (add_one g.last_offset_id, record { last_offset_id = add_one g.last_offset_id })

unfoldable pub last : OffsetIdGenerator → Option ℤ
last g = if eq_ℤ g.last_offset_id (negsuc 0) then none else some g.last_offset_id

unfoldable pub set_next : OffsetIdGenerator → ℤ → OffsetIdGenerator
unfolding sub_one
set_next g next_value = record { last_offset_id = sub_one next_value }

-- `n` calls of `next`, with what they return.
unfoldable pub next_times : ℕ → OffsetIdGenerator → List ℤ × OffsetIdGenerator
unfolding next
next_times zero g = ([], g)
next_times (suc n) g = let (x, g') = next g in let (xs, g'') = next_times n g' in (x ∷ xs, g'')
