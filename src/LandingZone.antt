-- ===== src/LandingZone.antt =====
-- rust/sdk/src/landing_zone.rs: the queue between `ingest` and the two tasks of a stream.
-- A `VecDeque` is a list with its front first. The three mutexes are one here: every operation
-- holds the lock on `state` while it touches the permits, so each is atomic. `add` is two steps,
-- since other operations may run between its taking a permit and its taking the lock.
pub mod Permits
pub mod History
pub mod Reset
mod Runs
use zerobus_sdk.Common.{
  ℕ, zero, suc, ◌+◌, ◌-◌, Bool, true, false, Option, none, some, List, [], ◌∷◌, ◌++◌, length, ◌<◌,
  ◌≡◌,
}

pub data LandingZoneError : Type 0 where
  removing_non_observed_element : LandingZoneError

pub data Removal {ℓ} (T : Type ℓ) : Type ℓ where
  ok : T → Removal T
  err : LandingZoneError → Removal T

-- `semaphore` counts the permits that are free, `permits` those that the deque holds, and
-- `acquired` those that calls of `add` have taken and not yet put into the deque.
pub record LandingZone {ℓ} (T : Type ℓ) : Type ℓ where
  pub queue : List T
  pub observed_items : List T
  pub semaphore : ℕ
  pub acquired : ℕ
  pub permits : ℕ

-- `VecDeque::pop_back`: the last item, and the rest.
unfoldable pub pop_back {ℓ} : {T : Type ℓ} → List T → Option (T × List T)
pop_back [] = none
pop_back (x ∷ xs) = elim (pop_back xs) [ none ↦ some (x, []) | some (y, rest) ↦ some (y, x ∷ rest) ]

-- The loop of `reset_observe`, and what it returns: the queue, what is still observed, the count.
unfoldable pub reset_loop {ℓ} : {T : Type ℓ} → ℕ → List T → List T → ℕ → List T × List T × ℕ
reset_loop zero queue observed moved = (queue, observed, moved)
reset_loop (suc fuel) queue observed moved = elim (pop_back observed) [
  | none ↦ (queue, observed, moved)
  | some (item, rest) ↦ reset_loop fuel (item ∷ queue) rest (moved + 1)
]

unfoldable pub sum_count {ℓ} : {T : Type ℓ} → (T → ℕ) → List T → ℕ
sum_count count [] = 0
sum_count count (x ∷ xs) = count x + sum_count count xs

module _ {ℓ} {T : Type ℓ} where
  unfoldable pub new : ℕ → LandingZone T
  new max_inflight_requests = record {
    queue = [];
    observed_items = [];
    semaphore = max_inflight_requests;
    acquired = 0;
    permits = 0;
  }

  -- `add` up to its await point: `none` while no permit is free, and the call waits.
  unfoldable pub acquire : LandingZone T → Option (LandingZone T)
  acquire z = elim z.semaphore [
    | zero ↦ none
    | suc free ↦ some (record z { semaphore = free; acquired = z.acquired + 1 })
  ]

  -- The rest of `add`, once it has its permit.
  unfoldable pub push : T → LandingZone T → LandingZone T
  push request z = record z {
    queue = z.queue ++ request ∷ [];
    acquired = z.acquired - 1;
    permits = z.permits + 1;
  }

  -- `add` with nothing in between; `none` means that it waits.
  unfoldable pub add : T → LandingZone T → Option (LandingZone T)
  unfolding acquire push
  add request z = elim (acquire z) [ none ↦ none | some z' ↦ some (push request z') ]

  -- `permits.pop_front()`: the permit is dropped, which frees it.
  unfoldable pub release_front : LandingZone T → LandingZone T
  release_front z = elim z.permits [
    | zero ↦ z
    | suc held ↦ record z { permits = held; semaphore = z.semaphore + 1 }
  ]

  unfoldable pub remove_observed : LandingZone T → Removal T × LandingZone T
  unfolding release_front
  remove_observed z = elim z.observed_items [
    | [] ↦ (err removing_non_observed_element, z)
    | item ∷ rest ↦ (ok item, release_front (record z { observed_items = rest }))
  ]

  -- One pass of the loop of `observe`; `none` means that it waits to be notified.
  unfoldable pub observe : LandingZone T → Option (T × LandingZone T)
  observe z = elim z.queue [
    | [] ↦ none
    | elem ∷ rest ↦
        some (elem, record z { queue = rest; observed_items = z.observed_items ++ elem ∷ [] })
  ]

  -- `VecDeque::len` rounds are enough for the loop, and the model gives it just those.
  unfoldable pub reset_observe : LandingZone T → ℕ × LandingZone T
  unfolding reset_loop
  reset_observe z =
      let (queue, observed, moved) =
        reset_loop (length z.observed_items) z.queue z.observed_items 0 in
      (moved, record z { queue = queue; observed_items = observed })

  -- Dropping the permits of the deque frees all of them.
  unfoldable pub remove_all : LandingZone T → List T × LandingZone T
  remove_all z = (
    z.observed_items ++ z.queue,
    record z { queue = []; observed_items = []; semaphore = z.semaphore + z.permits; permits = 0 },
  )

  unfoldable pub is_observed_empty : LandingZone T → Bool
  is_observed_empty z = elim z.observed_items [ [] ↦ true | x ∷ xs ↦ false ]

  unfoldable pub len : LandingZone T → ℕ
  len z = length z.queue + length z.observed_items

  -- `Countable::count` is the argument `count`.
  unfoldable pub total_count : (T → ℕ) → LandingZone T → ℕ
  unfolding sum_count
  total_count count z = sum_count count (z.queue ++ z.observed_items)

  unfoldable pub observed_count : (T → ℕ) → LandingZone T → ℕ
  unfolding sum_count
  observed_count count z = sum_count count z.observed_items

-- One atomic step by any task that holds the zone, with the items that it puts in and takes out.
-- `pushes` is enabled only for a call of `add` that has its permit.
pub data Step {ℓ} {T : Type ℓ} (z w : LandingZone T) (put taken : List T) : Type ℓ where
  acquires : acquire z ≡ some w → put ≡ [] → taken ≡ [] → Step z w put taken
  pushes : (x : T) → 0 < z.acquired → w ≡ push x z → put ≡ x ∷ [] → taken ≡ [] → Step z w put taken
  observes : (x : T) → observe z ≡ some (x, w) → put ≡ [] → taken ≡ [] → Step z w put taken
  removes : (x : T) → remove_observed z ≡ (ok x, w) → put ≡ [] → taken ≡ x ∷ [] → Step z w put taken
  resets : w ≡ (reset_observe z).1 → put ≡ [] → taken ≡ [] → Step z w put taken
  clears : w ≡ (remove_all z).1 → put ≡ [] → taken ≡ (remove_all z).0 → Step z w put taken

-- A history of a zone: its steps in the order in which they took the lock.
pub data Reach {ℓ} {T : Type ℓ} (capacity : ℕ) : LandingZone T → List T → List T → Type ℓ where
  here : Reach capacity (new capacity) [] []
  next :
      {z w : LandingZone T} {put taken more gone : List T}
      → Reach capacity z put taken
      → Step z w more gone
      → Reach capacity w (put ++ more) (taken ++ gone)
