-- ===== src/Zeroparser/SparseFieldMap.antt =====
-- rust/sdk/src/zeroparser/sparse_field_map.rs: field numbers to values, the small ones in an array.
pub mod Lookup
use zerobus_sdk.Common.{
  ℕ, zero, suc, ◌+◌, ◌-◌, ◌^◌, Bool, List, [], ◌∷◌, Option, none, some, length, get_elem?, set,
  replicate, ltb, if◌then◌else◌, min,
}
use zerobus_sdk.Common.Int.{ℤ, pos, negsuc, as_usize, eq_ℤ, eq_ℤ_iff}
use zerobus_sdk.Common.Assoc.{KeyEq, lookup as assoc_lookup, insert as assoc_insert}

abbrev pub max_inline_capacity : ℕ
max_inline_capacity = 128

abbrev pub field_num_eq : KeyEq ℤ
field_num_eq = record { beq = eq_ℤ; beq_iff = eq_ℤ_iff }

pub record SparseFieldMap {ℓ} (V : Type ℓ) : Type ℓ where
  pub inline : List (Option V)
  pub overflow : List (ℤ × V)

-- `(n + 1) as usize` for an i32 below its maximum.
abbrev pub succ_as_usize : ℤ → ℕ
succ_as_usize (pos n) = n + 1
succ_as_usize (negsuc zero) = 0
succ_as_usize (negsuc (suc n)) = 2 ^ 64 - 1 - n

abbrev flatten {ℓ} : {V : Type ℓ} → Option (Option V) → Option V
flatten none = none
flatten (some slot) = slot

module _ {ℓ} {V : Type ℓ} where
  unfoldable pub new : ℤ → SparseFieldMap V
  new max_field_num = record {
    inline = replicate (min (succ_as_usize max_field_num) max_inline_capacity) none;
    overflow = [];
  }

  unfoldable pub get : SparseFieldMap V → ℤ → Option V
  get m field_num =
      if ltb (as_usize field_num) (length m.inline)
      then flatten (get_elem? m.inline (as_usize field_num))
      else assoc_lookup field_num_eq field_num m.overflow

  -- The map afterwards, and the value that the number had before.
  unfoldable pub insert : SparseFieldMap V → ℤ → V → SparseFieldMap V × Option V
  insert m field_num value =
      if ltb (as_usize field_num) (length m.inline)
      then (
        record m { inline = set m.inline (as_usize field_num) (some value) },
        flatten (get_elem? m.inline (as_usize field_num)),
      )
      else (
        record m { overflow = assoc_insert field_num_eq field_num value m.overflow },
        assoc_lookup field_num_eq field_num m.overflow,
      )
