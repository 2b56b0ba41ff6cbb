-- ===== src/LandingZone/Runs.antt =====
-- The theorems of the landing zone at concrete zones, and runs of its operations.
use zerobus_sdk.Common.{ℕ, ◌≤◌, ◌≡◌, ◌↔◌, refl, arith, [], ◌∷◌, ◌++◌, none, some}
use zerobus_sdk.LandingZone.{
  LandingZone, acquires, pushes, observes, Reach, here, next, new, acquire, push, add, observe,
  reset_observe, remove_all, len, reset_loop, pop_back,
}
use zerobus_sdk.LandingZone.Permits.{len_le_capacity, add_waits_iff_full}
use zerobus_sdk.LandingZone.Reset.{reset_observe_replays, observe_times}
use zerobus_sdk.LandingZone.History.{contents, Reach-contents}

-- One place, taken by the item 7, which has been observed.
abbrev full : LandingZone ℕ
full = record { queue = []; observed_items = 7 ∷ []; semaphore = 0; acquired = 0; permits = 1 }

abbrev emptied : LandingZone ℕ
emptied = record { queue = []; observed_items = []; semaphore = 1; acquired = 0; permits = 0 }

abbrev granted : LandingZone ℕ
granted = record { queue = []; observed_items = []; semaphore = 0; acquired = 1; permits = 0 }

abbrev queued : LandingZone ℕ
queued = record { queue = 7 ∷ []; observed_items = []; semaphore = 0; acquired = 0; permits = 1 }

granted-Reach : Reach 1 granted [] []
unfolding new acquire
granted-Reach = next {z = new 1} {w = granted} here (acquires refl refl refl)

queued-Reach : Reach 1 queued (7 ∷ []) []
unfolding push
queued-Reach = next {z = granted} {w = queued} granted-Reach (pushes 7 (omega arith) refl refl refl)

full-Reach : Reach 1 full (7 ∷ []) []
unfolding observe
full-Reach = next {z = queued} {w = full} queued-Reach (observes 7 refl refl refl)

len_le_capacity_example : len full ≤ 1
len_le_capacity_example = len_le_capacity full-Reach

add_waits_iff_full_example : (add 8 full ≡ none) ↔ (len full ≡ 1)
add_waits_iff_full_example = add_waits_iff_full 8 full-Reach refl

Reach-contents_example : 7 ∷ [] ≡ [] ++ contents full
Reach-contents_example = Reach-contents full-Reach

abbrev half_sent : LandingZone ℕ
half_sent = record {
  queue = 3 ∷ [];
  observed_items = 1 ∷ 2 ∷ [];
  semaphore = 0;
  acquired = 0;
  permits = 3;
}

reset_observe_replays_example :
    observe_times 2 (reset_observe half_sent).1 ≡ some (1 ∷ 2 ∷ [], half_sent)
reset_observe_replays_example = reset_observe_replays half_sent

reset_counts : (reset_observe half_sent).0 ≡ 2
unfolding reset_observe reset_loop pop_back
reset_counts = refl

all_removed : (remove_all half_sent).0 ≡ 1 ∷ 2 ∷ 3 ∷ []
unfolding remove_all
all_removed = refl
