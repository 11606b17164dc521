-- ===== src/ProofOfWork/Search.antt =====
-- What the search of proof_of_work.cpp finds, and when it ends.
use aether_client_cpp_new.Prelude.{ℕ, ◌^◌, ◌≤◌, ◌<◌, ◌≡◌, Option, none, some, List, [], ◌∷◌}
use aether_client_cpp_new.ProofOfWork.{Password, get, compute_password, compute_hash}
use aether_client_cpp_new.ProofOfWork.Passwords.{IsPassword}

module _ (to_string : ℕ → List ℕ) (bcrypt_hashpw : List ℕ → List ℕ → List ℕ)
    (salt password_suffix : List ℕ) (max_hash_value : ℕ) where
  -- the hash of a number
  abbrev pub hash_of : ℕ → ℕ
  hash_of n =
      compute_hash to_string bcrypt_hashpw
        (compute_password to_string bcrypt_hashpw n password_suffix) salt

  -- The numbers behind `from` whose hash is small enough, the first ones in ascending order, all of
  -- four bytes.
  abbrev pub Firsts : ℕ → List ℕ → Type 0
  Firsts from [] = Unit
  Firsts from (n ∷ more) =
      (from < n)
      × (n < 2 ^ 32)
      × (hash_of n ≤ max_hash_value)
      × ((m : ℕ) → from < m → m < n → max_hash_value < hash_of m)
      × Firsts n more

  -- a password that was found
  abbrev Found : ℕ → Option Password → Type 0
  Found n none = ⊥
  Found n (some p) = IsPassword p × (get p ≡ n)
