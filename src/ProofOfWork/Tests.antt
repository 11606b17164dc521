-- ===== src/ProofOfWork/Tests.antt =====
-- A search for two numbers. A password is hashed to itself here, before its CRC-32 is taken.
use aether_client_cpp_new.Prelude.{ℕ, List, [], ◌∷◌}
use aether_client_cpp_new.ProofOfWork.Search.{hash_of}

abbrev characters : ℕ → List ℕ
characters n = n ∷ []

abbrev hashed : List ℕ → List ℕ → List ℕ
hashed pass salt = pass

abbrev hash : ℕ → ℕ
hash = hash_of characters hashed [] [] 1600000000
