-- ===== src/Zeroparser/SparseFieldMap/Lookup.antt =====
-- The map of field numbers behaves as one map, wherever it keeps a number.
use zerobus_sdk.Common.{
  ◌≡◌, arith, false, some, length, ltb, if◌then◌else◌, Bool-cases, length-set, get_elem?-set_self,
  get_elem?-set_ne, inl, inr, ◌≢◌,
}
use zerobus_sdk.Common.Int.{ℤ, as_usize, eq_ℤ, IsI32, eq_ℤ_refl, eq_ℤ→eq}
use zerobus_sdk.Common.Assoc.{lookup-insert}
use zerobus_sdk.Zeroparser.SparseFieldMap.{SparseFieldMap, get, insert, field_num_eq}

as_usize_injective : (a b : ℤ) → IsI32 a → IsI32 b → as_usize a ≡ as_usize b → a ≡ b
as_usize_injective a b ha hb e = ground arith

module _ {ℓ} {V : Type ℓ} where
  get-insert_same : (m : SparseFieldMap V) (k : ℤ) (v : V) → get (insert m k v).0 k ≡ some v
  unfolding get insert
  get-insert_same m k v = elim (Bool-cases (ltb (as_usize k) (length m.inline))) [
    | inl small ↦
        rw (small, length-set m.inline (as_usize k) (some v), small)
          (ground (arith, get_elem?-set_self m.inline (as_usize k) (some v)))
    | inr large ↦
        rw (large, large) (ground (arith, lookup-insert field_num_eq k k v m.overflow, eq_ℤ_refl k))
  ]

  get-insert_other :
      (m : SparseFieldMap V) (k j : ℤ) (v : V)
      → as_usize k ≢ as_usize j
      → eq_ℤ k j ≡ false
      → get (insert m k v).0 j ≡ get m j
  unfolding get insert
  get-insert_other m k j v ne h = elim (Bool-cases (ltb (as_usize k) (length m.inline))) [
    | inl small ↦
        rw (small, length-set m.inline (as_usize k) (some v))
          (ground (arith, get_elem?-set_ne m.inline {i = as_usize k} {j = as_usize j} (some v) ne))
    | inr large ↦ rw large (ground (arith, lookup-insert field_num_eq k j v m.overflow, h))
  ]

  -- After `insert` at an i32, `get` at an i32 finds the new value at that number and what was there
  -- before at every other; `insert` returns what `get` found at its number before.
  pub get-insert :
      (m : SparseFieldMap V) (k j : ℤ) (v : V)
      → IsI32 k
      → IsI32 j
      → (get (insert m k v).0 j ≡ (if eq_ℤ k j then some v else get m j))
        × ((insert m k v).1 ≡ get m k)
  get-insert m k j v hk hj = (found, unfold get insert in ground arith)
    where
      found : get (insert m k v).0 j ≡ (if eq_ℤ k j then some v else get m j)
      found = elim (Bool-cases (eq_ℤ k j)) [
        | inl same ↦ rw (same, ← eq_ℤ→eq k j same) (get-insert_same m k v)
        | inr other ↦ rw other (
            get-insert_other m k j v (λ e. cc (other, as_usize_injective k j hk hj e, eq_ℤ_refl k))
              other)
      ]
