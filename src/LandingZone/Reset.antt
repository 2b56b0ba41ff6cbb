-- ===== src/LandingZone/Reset.antt =====
-- `reset_observe` in plain list operations.
use zerobus_sdk.Common.{
  ℕ, zero, suc, ◌+◌, ◌≡◌, refl, ap, arith, Option, none, some, List, [], ◌∷◌, ◌++◌, length,
  length-append, ◌∙◌,
}
use mathlib.Core.List.{append-nil, append_assoc}
use zerobus_sdk.LandingZone.{LandingZone, pop_back, reset_loop, reset_observe, observe}

module _ {ℓ} {T : Type ℓ} where
  pop_back-cons :
      (x : T) (xs : List T)
      → (y : T) × (rest : List T) × (pop_back (x ∷ xs) ≡ some (y, rest)) × (x ∷ xs ≡ rest ++ y ∷ [])
  unfolding pop_back
  pop_back-cons x [] = (x, [], refl, refl)
  pop_back-cons x (x' ∷ xs) =
      let (y, rest, e, split) = pop_back-cons x' xs in (y, x ∷ rest, rw e, ap (◌∷◌ x) split)

  reset_loop_lem :
      (fuel : ℕ) (queue observed : List T) (moved : ℕ)
      → length observed ≡ fuel
      → reset_loop fuel queue observed moved ≡ (observed ++ queue, [], moved + length observed)
  unfolding reset_loop
  reset_loop_lem zero queue [] moved h = ground (arith)
  reset_loop_lem zero queue (x ∷ xs) moved h = absurd (omega arith)
  reset_loop_lem (suc fuel) queue [] moved h = absurd (omega arith)
  reset_loop_lem (suc fuel) queue (x ∷ xs) moved h =
      let (y, rest, e, split) = pop_back-cons x xs in
      let count : length (x ∷ xs) ≡ length rest + 1 =
        omega (arith, ap length split, length-append rest (y ∷ [])) in
      let ih = reset_loop_lem fuel (y ∷ queue) rest (moved + 1) (omega arith) in
      rw (e, reset_loop)
        (ih
          ∙ ground (arith, append_assoc rest (y ∷ []) queue, ap (λ (l : List T). l ++ queue) split))

  -- `reset_observe` puts the observed items back in front of the queue, in their order, and
  -- returns their number.
  pub reset_observe_lem :
      (z : LandingZone T)
      → reset_observe z ≡ (
        length z.observed_items,
        record z { queue = z.observed_items ++ z.queue; observed_items = [] },
      )
  unfolding reset_observe
  reset_observe_lem z =
      rw (reset_loop_lem (length z.observed_items) z.queue z.observed_items 0 refl) (ground arith)

  -- `n` calls of `observe` in a row, with what they return; `none` means that one of them waits.
  unfoldable pub observe_times : ℕ → LandingZone T → Option (List T × LandingZone T)
  observe_times zero z = some ([], z)
  observe_times (suc n) z = elim (observe z) [
    | none ↦ none
    | some (x, w) ↦ elim (observe_times n w) [ none ↦ none | some (xs, v) ↦ some (x ∷ xs, v) ]
  ]

  observe_times_front :
      (xs seen rest : List T) (z : LandingZone T)
      → observe_times (length xs) (record z { queue = xs ++ rest; observed_items = seen })
        ≡ some (xs, record z { queue = rest; observed_items = seen ++ xs })
  unfolding observe_times observe
  observe_times_front [] seen rest z = rw append-nil
  observe_times_front (x ∷ xs) seen rest z =
      rw (observe_times_front xs (seen ++ x ∷ []) rest z)
        (ground (arith, append_assoc seen (x ∷ []) xs))

  -- After `reset_observe` the next calls of `observe` return the items that had been observed, in
  -- the same order, and then the zone is as it was before the reset.
  pub reset_observe_replays :
      (z : LandingZone T)
      → observe_times (length z.observed_items) (reset_observe z).1 ≡ some (z.observed_items, z)
  reset_observe_replays z =
      rw (reset_observe_lem z) (observe_times_front z.observed_items [] z.queue z)
