-- ===== src/OffsetGenerator/Runs.antt =====
-- A run of the offset generator.
use zerobus_sdk.Common.{◌≡◌, refl, [], ◌∷◌}
use zerobus_sdk.Common.Int.{pos}
use zerobus_sdk.OffsetGenerator.{default, next_times}

first_offsets : (next_times 3 default).0 ≡ pos 0 ∷ pos 1 ∷ pos 2 ∷ []
unfolding next_times default
first_offsets = refl
