-- ===== src/ProofOfWork.antt =====
-- aether/proof_of_work.cpp: passwords are tried in turn until their hash is small enough. A password's
-- number is read from its bytes, the lowest first. `std::to_string` and `bcrypt_hashpw` are parameters
-- on lists of characters; the hash that the latter writes ends with a 0. The asserts on
-- the password's length and on the result of `bcrypt_hashpw` are left out.
pub mod Passwords
pub mod Search
mod Tests
use aether_client_cpp_new.Prelude.{
  ℕ, zero, suc, ◌+◌, ◌*◌, Option, none, some, List, [], ◌∷◌, ◌++◌, ltb, leb, if◌then◌else◌,
}
use aether_client_cpp_new.Crc.{initial_value, from_string}

-- `Password`, as its bytes
abbrev pub Password : Type 0
Password = List ℕ

abbrev pub first_password : Password
first_password = 0 ∷ 0 ∷ 0 ∷ 0 ∷ []

-- `get`
unfoldable pub get : Password → ℕ
get [] = 0
get (v ∷ vs) = v + 256 * get vs

-- `operator++`
unfoldable pub increment : Password → Password
increment [] = []
increment (v ∷ vs) = let more = increment vs in if ltb v 255 then (v + 1) ∷ vs else 0 ∷ more

module _ (to_string : ℕ → List ℕ) (bcrypt_hashpw : List ℕ → List ℕ → List ℕ) where
  -- `ComputePassword`
  unfoldable pub compute_password : ℕ → List ℕ → List ℕ
  compute_password val password_suffix = to_string val ++ password_suffix

  -- `ComputeHash`
  unfoldable pub compute_hash : List ℕ → List ℕ → ℕ
  compute_hash pass salt = from_string (some (bcrypt_hashpw pass salt)) initial_value

  module _ (salt password_suffix : List ℕ) (max_hash_value : ℕ) where
    -- the inner loop, which does not end if no further password will do
    unfoldable pub search : ℕ → Password → Option Password
    unfolding increment get compute_password compute_hash
    search zero pass = none
    search (suc fuel) pass =
        let pass' = increment pass in
        let later = search fuel pass' in
        if leb (compute_hash (compute_password (get pass') password_suffix) salt) max_hash_value
        then some pass'
        else later

    -- the outer loop
    unfoldable pub search_all : ℕ → ℕ → Password → Option (List ℕ)
    unfolding search
    search_all fuel zero pass = some []
    search_all fuel (suc pool_size) pass = elim (search fuel pass) [
      | none ↦ none
      | some pass' ↦ elim (search_all fuel pool_size pass') [
        | none ↦ none
        | some result ↦ some (get pass' ∷ result)
      ]
    ]

    -- `ComputeProofOfWork`
    unfoldable pub compute_proof_of_work : ℕ → ℕ → Option (List ℕ)
    unfolding search_all
    compute_proof_of_work fuel pool_size = search_all fuel pool_size first_password
