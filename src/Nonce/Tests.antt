-- ===== src/Nonce/Tests.antt =====
-- Runs of the nonce of crypto_nonce.cpp.
use aether_client_cpp_new.Prelude.{ℕ, ◌≡◌, refl, List, [], ◌∷◌, ◌++◌}
use aether_client_cpp_new.Nonce.{next, next_times, next_times_lem}

abbrev low : List ℕ
low = 7 ∷ 7 ∷ 7 ∷ 7 ∷ 7 ∷ 7 ∷ 7 ∷ 7 ∷ []

abbrev low' : List ℕ
low' = 9 ∷ 8 ∷ 7 ∷ 6 ∷ 5 ∷ 4 ∷ 3 ∷ 2 ∷ []

next_of_low : next (low ++ (5 ∷ [])) ≡ 1 ∷ 0 ∷ 0 ∷ 0 ∷ 0 ∷ 0 ∷ 0 ∷ 0 ∷ 5 ∷ []
unfolding next
next_of_low = refl

next_times_lem_example : next_times 3 (low ++ (5 ∷ [])) ≡ 1 ∷ 0 ∷ 0 ∷ 0 ∷ 0 ∷ 0 ∷ 0 ∷ 0 ∷ 5 ∷ []
next_times_lem_example = next_times_lem 2 low (5 ∷ []) refl
