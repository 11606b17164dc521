-- ===== src/Crc/Literals.antt =====
-- The three entry points of crc.h on the same characters.
use aether_client_cpp_new.Prelude.{
  ℕ, zero, suc, ◌/◌, ◌%◌, ◌<◌, ◌≡◌, refl, ap, ◌∙◌, arith, some, List, [], ◌∷◌, ◌++◌, All,
}
use aether_client_cpp_new.Crc.{
  initial_value, table, entry, next_value, from_bytes, from_buffer, from_chars, from_string, exec,
  from_literal,
}
use aether_client_cpp_new.Crc.Bits.{bit_xor_comm}
use Prim.Native.Nat.{bit_xor}

exec-from_bytes :
    (chars : List ℕ) (value previous : ℕ)
    → exec (chars ++ (0 ∷ [])) value previous ≡ from_bytes chars value
unfolding exec from_bytes next_value
exec-from_bytes [] value previous = refl
exec-from_bytes (c ∷ chars) value previous =
    let next = bit_xor (entry table (bit_xor (value % 256) c)) (value / 256) in
    exec-from_bytes chars next value
    ∙ ap (from_bytes chars) (bit_xor_comm (entry table (bit_xor (value % 256) c)) (value / 256))

from_literal-exec :
    (chars : List ℕ)
    → from_literal (chars ++ (0 ∷ [])) ≡ exec (chars ++ (0 ∷ [])) initial_value initial_value
unfolding from_literal exec
from_literal-exec [] = refl
from_literal-exec (c ∷ []) = refl
from_literal-exec (c ∷ (d ∷ chars)) = refl

from_chars-from_bytes :
    (chars : List ℕ) (value : ℕ)
    → All (λ c. 0 < c) chars
    → from_chars (chars ++ (0 ∷ [])) value ≡ from_bytes chars value
unfolding from_chars from_bytes
from_chars-from_bytes [] value v = refl
from_chars-from_bytes (zero ∷ chars) value (v, vs) = absurd (omega arith)
from_chars-from_bytes (suc c ∷ chars) value (v, vs) =
    from_chars-from_bytes chars (next_value value (suc c)) vs

-- For characters other than 0 with a 0 behind them, `from_literal` at compile time and `from_string`
-- at run time return what `from_buffer` does for the characters without that 0.
pub from_literal-from_buffer :
    (chars : List ℕ)
    → All (λ c. 0 < c) chars
    → (from_literal (chars ++ (0 ∷ [])) ≡ from_buffer (some chars) initial_value)
      × (from_string (some (chars ++ (0 ∷ []))) initial_value
          ≡ from_buffer (some chars) initial_value)
unfolding from_buffer from_string
from_literal-from_buffer chars v = (
  from_literal-exec chars ∙ exec-from_bytes chars initial_value initial_value,
  from_chars-from_bytes chars initial_value v,
)
