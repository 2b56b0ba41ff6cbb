-- ===== src/LandingZone/History.antt =====
-- The zone as a queue of all that was added and not taken out.
use zerobus_sdk.Common.{ℕ, ◌≡◌, refl, ap, sym, ◌∙◌, arith, List, [], ◌∷◌, ◌++◌}
use mathlib.Core.List.{append-nil, append_assoc}
use zerobus_sdk.LandingZone.{
  LandingZone, Step, acquires, pushes, observes, removes, resets, clears, Reach, here, next, new,
  acquire, push, observe, remove_observed, release_front, remove_all,
}
use zerobus_sdk.LandingZone.Reset.{reset_observe_lem}

abbrev pub contents {ℓ} : {T : Type ℓ} → LandingZone T → List T
contents z = z.observed_items ++ z.queue

module _ {ℓ} {T : Type ℓ} where
  pub Step-contents :
      (z w : LandingZone T) {put taken : List T}
      → Step z w put taken
      → contents z ++ put ≡ taken ++ contents w
  unfolding acquire push observe remove_observed release_front remove_all
  Step-contents z w (acquires e p t) = rw (p, t) (append-nil (contents z) ∙ ground arith)
  Step-contents z w (pushes x h e p t) =
      rw (p, t) (append_assoc z.observed_items z.queue (x ∷ []) ∙ ground arith)
  Step-contents z w (observes x e p t) =
      rw (p, t)
        (append-nil (contents z) ∙ ground (arith, append_assoc z.observed_items (x ∷ []) w.queue))
  Step-contents z w (removes x e p t) = rw (p, t) (append-nil (contents z) ∙ ground arith)
  Step-contents z w (resets e p t) =
      rw (p, t) (append-nil (contents z) ∙ ground (arith, reset_observe_lem z))
  Step-contents z w (clears e p t) = rw (p, t) (ground arith)

  -- Nothing that was added is lost, repeated or reordered: what was added is what was taken out
  -- followed by what the zone still holds.
  pub Reach-contents :
      {capacity : ℕ} {z : LandingZone T} {put taken : List T}
      → Reach capacity z put taken
      → put ≡ taken ++ contents z
  unfolding new
  Reach-contents here = refl
  Reach-contents (next {z} {w} {put} {taken} {more} {gone} r s) = rw (Reach-contents r) (
      append_assoc taken (contents z) more
      ∙ ap (◌++◌ taken) (Step-contents z w s)
      ∙ sym (append_assoc taken gone (contents w)))
