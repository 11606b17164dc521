-- ===== src/Ring/Tests.antt =====
-- Runs of `RingIndex<uint8_t>` and of one with the small maximum that the repository tests.
use aether_client_cpp_new.Prelude.{◌≡◌, refl}
use aether_client_cpp_new.Ring.{of_value, distance, plus, minus}

-- the assertions of tests/test-types/test-ring-buffer.cpp
repository_tests :
    (plus 10 0 1 ≡ 1)
    × (minus 10 0 1 ≡ 9)
    × (plus 10 0 10 ≡ 0)
    × (plus 10 0 11 ≡ 1)
    × (minus 10 0 8 ≡ 2)
    × (minus 255 0 200 ≡ 55)
    × (distance 10 9 (plus 10 9 5) ≡ 4)
unfolding plus minus distance
repository_tests = (refl, refl, refl, refl, refl, refl, refl)

-- A move can end on the maximum itself, which the constructor never gives.
ends_on_max : (plus 255 250 5 ≡ 255) × (of_value 255 255 ≡ 0)
unfolding plus of_value
ends_on_max = (refl, refl)
