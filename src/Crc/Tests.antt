-- ===== src/Crc/Tests.antt =====
-- The checks of crc.h, and runs of its theorems.
use aether_client_cpp_new.Prelude.{ℕ, ◌<◌, ◌≡◌, ◌≢◌, refl, arith, some, List, [], ◌∷◌, ◌++◌, All}
use aether_client_cpp_new.Crc.{
  initial_value, from_bytes, from_buffer, from_string, from_literal, checksum_from_literal,
}
use aether_client_cpp_new.Crc.Register.{bitwise_value, from_bytes-bitwise_value}
use aether_client_cpp_new.Crc.Detection.{from_bytes_detects}
use aether_client_cpp_new.Crc.Literals.{from_literal-from_buffer}

empty_string : checksum_from_literal (0 ∷ []) ≡ 0
unfolding checksum_from_literal
empty_string = refl

letter_a : checksum_from_literal (0x41 ∷ 0 ∷ []) ≡ 0xd3d99e8b
unfolding checksum_from_literal
letter_a = refl

-- "Hello world"
abbrev hello : List ℕ
hello = 0x48 ∷ 0x65 ∷ 0x6c ∷ 0x6c ∷ 0x6f ∷ 0x20 ∷ 0x77 ∷ 0x6f ∷ 0x72 ∷ 0x6c ∷ 0x64 ∷ []

hello_world : checksum_from_literal (hello ++ (0 ∷ [])) ≡ 0x8bd69e52
unfolding checksum_from_literal
hello_world = refl

abbrev word : List ℕ
word = 0x41 ∷ 0x42 ∷ []

word_bytes : All (λ byte. byte < 256) word
word_bytes = (omega arith, (omega arith, tt))

word_chars : All (λ c. 0 < c) word
word_chars = (omega arith, (omega arith, tt))

from_bytes-bitwise_value_example : from_bytes word initial_value ≡ bitwise_value word initial_value
from_bytes-bitwise_value_example = from_bytes-bitwise_value word initial_value word_bytes

from_literal-from_buffer_example :
    (from_literal (word ++ (0 ∷ [])) ≡ from_buffer (some word) initial_value)
    × (from_string (some (word ++ (0 ∷ []))) initial_value ≡ from_buffer (some word) initial_value)
from_literal-from_buffer_example = from_literal-from_buffer word word_chars

seven_not_nine : (x : ℕ) → x ≡ 7 → x ≢ 9
seven_not_nine x p = λ e. absurd (omega (arith, p, e))

from_bytes_detects_example :
    from_bytes (word ++ (7 ∷ word)) initial_value ≢ from_bytes (word ++ (9 ∷ word)) initial_value
from_bytes_detects_example =
    from_bytes_detects word word 7 9 initial_value word_bytes word_bytes (omega arith) (omega arith)
      (omega arith) (seven_not_nine 7 refl)
