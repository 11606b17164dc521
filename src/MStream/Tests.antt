-- ===== src/MStream/Tests.antt =====
-- Containers written and read back, and the instances of the round trips.
use aether_client_cpp_new.Prelude.{
  ℕ, ◌<◌, ◌^◌, ◌≡◌, refl, arith, false, List, [], ◌∷◌, ◌++◌, All, length,
}
use aether_client_cpp_new.MStream.{to_bytes, VectorReader}
use aether_client_cpp_new.MStream.Ahead.{Ahead, Found}
use aether_client_cpp_new.MStream.Containers.{
  write_string, write_elements, write_vector, read_vector,
}
use aether_client_cpp_new.MStream.RoundTrip.{string_codec, read_vector-write_vector}

abbrev names : List (List ℕ)
names = (104 ∷ 105 ∷ []) ∷ [] ∷ (111 ∷ []) ∷ []

two_is_positive : 0 < 2
two_is_positive = omega arith

-- a reader at the start of some bytes
abbrev over : List ℕ → VectorReader
over bytes = record { bytes = bytes; offset = 0; result = false }

over-Ahead : (bytes : List ℕ) → Ahead (over bytes) bytes
over-Ahead bytes = record { bytes = refl; inside = omega arith }

bytes-names :
    write_vector (string_codec 2 two_is_positive) 2 names
    ≡ 3 ∷ 0 ∷ 2 ∷ 0 ∷ 104 ∷ 105 ∷ 0 ∷ 0 ∷ 1 ∷ 0 ∷ 111 ∷ []
unfolding write_vector write_elements write_string to_bytes
bytes-names = refl

names_fit : All (λ t. length t < 256 ^ 2) names
names_fit = (omega arith, (omega arith, (omega arith, tt)))

few_names : length names < 256 ^ 2
few_names = omega arith

read_vector-write_vector_example : Found names (9 ∷ []) (
    read_vector
      (string_codec 2 two_is_positive)
      2
      []
      (over (write_vector (string_codec 2 two_is_positive) 2 names ++ (9 ∷ []))))
read_vector-write_vector_example =
    read_vector-write_vector (string_codec 2 two_is_positive) 2 []
      (over (write_vector (string_codec 2 two_is_positive) 2 names ++ (9 ∷ []))) names (9 ∷ [])
      two_is_positive few_names names_fit
      (over-Ahead (write_vector (string_codec 2 two_is_positive) 2 names ++ (9 ∷ [])))
