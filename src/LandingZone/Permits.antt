-- ===== src/LandingZone/Permits.antt =====
-- The permits: the bound on the zone, and when `add` waits.
use zerobus_sdk.Common.{
  ℕ, ◌+◌, ◌-◌, ◌≤◌, ◌≡◌, refl, arith, List, [], ◌∷◌, ◌++◌, length, length-append, none, some, ◌↔◌,
}
use zerobus_sdk.LandingZone.{
  LandingZone, Step, acquires, pushes, observes, removes, resets, clears, Reach, here, next, new,
  acquire, push, add, observe, remove_observed, remove_all, len, ok,
}
use zerobus_sdk.LandingZone.Reset.{reset_observe_lem}

-- Every item holds one permit, and no permit is lost or made up.
pub record Accounted {ℓ} {T : Type ℓ} (capacity : ℕ) (z : LandingZone T) : Type ℓ where
  pub held : z.permits ≡ length z.queue + length z.observed_items
  pub total : z.semaphore + z.acquired + z.permits ≡ capacity

module _ {ℓ} {T : Type ℓ} {capacity : ℕ} where
  Step-Accounted :
      (z w : LandingZone T) {put taken : List T}
      → Step z w put taken
      → Accounted capacity z
      → Accounted capacity w
  unfolding acquire push observe remove_observed remove_all
  Step-Accounted z w (acquires e _ _) a = ground arith
  Step-Accounted z w (pushes x h e _ _) a = ground (arith, length-append z.queue (x ∷ []))
  Step-Accounted z w (observes x e _ _) a = ground (arith, length-append z.observed_items (x ∷ []))
  Step-Accounted z w (removes x e _ _) a = ground arith
  Step-Accounted z w (resets e _ _) a =
      ground (arith, reset_observe_lem z, length-append z.observed_items z.queue)
  Step-Accounted z w (clears e _ _) a = ground arith

  Reach-Accounted :
      {z : LandingZone T} {put taken : List T} → Reach capacity z put taken → Accounted capacity z
  unfolding new
  Reach-Accounted here = record { held = refl; total = omega arith }
  Reach-Accounted (next r s) = Step-Accounted _ _ s (Reach-Accounted r)

  -- In any history the zone holds at most `max_inflight_requests` items.
  pub len_le_capacity :
      {z : LandingZone T} {put taken : List T} → Reach capacity z put taken → len z ≤ capacity
  unfolding len
  len_le_capacity r = let a = Reach-Accounted r in omega arith

  -- With no other call of `add` under way, `add` waits exactly when the zone is full.
  pub add_waits_iff_full :
      (x : T) {z : LandingZone T} {put taken : List T}
      → Reach capacity z put taken
      → z.acquired ≡ 0
      → (add x z ≡ none) ↔ (len z ≡ capacity)
  unfolding add len
  add_waits_iff_full x {z} r idle = let a = Reach-Accounted r in (ground arith, ground arith)

  -- A removal always makes room for one more `add`, whatever other calls hold permits.
  add_after_remove :
      (x y : T) {z w : LandingZone T} {put taken : List T}
      → Reach capacity z put taken
      → remove_observed z ≡ (ok x, w)
      → (v : LandingZone T) × (add y w ≡ some v) × (v.queue ≡ z.queue ++ y ∷ [])
  unfolding add remove_observed
  add_after_remove x y {z} {w} r e =
      let a = Reach-Accounted r in
      (
        record w {
          queue = w.queue ++ y ∷ [];
          permits = w.permits + 1;
          semaphore = w.semaphore - 1;
          acquired = w.acquired + 1 - 1;
        },
        ground arith,
        ground arith,
      )
