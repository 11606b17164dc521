-- ===== src/Crc/Register.antt =====
-- The register that the table of crc.h stands for: one step a bit, polynomial 0x04C11DB7 reflected.
use Prim.Native.Nat.{bit_xor}
use aether_client_cpp_new.Prelude.{
  ℕ, zero, suc, ◌+◌, ◌/◌, ◌%◌, ◌<◌, ◌≡◌, refl, sym, ap, ap₂, ◌∙◌, arith, Bool, true, ◌&&◌, List, [],
  ◌∷◌, ◌==◌, ==_iff, All, length,
}
use aether_client_cpp_new.Crc.{table, entry, next_value, from_bytes}
use aether_client_cpp_new.Crc.Bits.{
  half-bit_xor, parity-bit_xor, bit_xor-zero, bit_xor_comm, bit_xor_assoc, bit_xor_swap, shift,
  bit_xor_less, bit_xor-shift,
}

abbrev pub polynomial : ℕ
polynomial = 0xedb88320

abbrev pub feedback : ℕ → ℕ
feedback zero = 0
feedback (suc b) = polynomial

-- The register moves down by one bit, and a bit that falls out is fed back.
unfoldable pub clock : ℕ → ℕ
clock r = bit_xor (r / 2) (feedback (r % 2))

-- a byte's worth of steps
abbrev pub clocks : ℕ → ℕ → ℕ
clocks zero r = r
clocks (suc n) r = clocks n (clock r)

-- the checksum a bit at a time
unfoldable pub bitwise_value : List ℕ → ℕ → ℕ
unfolding clock
bitwise_value [] r = r
bitwise_value (byte ∷ bytes) r = bitwise_value bytes (clocks 8 (bit_xor r byte))

feedback-xor :
    (x y : ℕ) → x < 2 → y < 2 → feedback ((x + y) % 2) ≡ bit_xor (feedback x) (feedback y)
feedback-xor zero zero p q = refl
feedback-xor zero (suc zero) p q = refl
feedback-xor (suc zero) zero p q = refl
feedback-xor (suc zero) (suc zero) p q = refl
feedback-xor (suc (suc x)) y p q = absurd (omega arith)
feedback-xor zero (suc (suc y)) p q = absurd (omega arith)
feedback-xor (suc zero) (suc (suc y)) p q = absurd (omega arith)

pub clock-xor : (a b : ℕ) → clock (bit_xor a b) ≡ bit_xor (clock a) (clock b)
unfolding clock
clock-xor a b =
    let parity : bit_xor a b % 2 ≡ (a % 2 + b % 2) % 2 = omega (arith, parity-bit_xor a b) in
    ap₂ bit_xor (half-bit_xor a b)
      (ap feedback parity ∙ feedback-xor (a % 2) (b % 2) (omega arith) (omega arith))
    ∙ bit_xor_swap (a / 2) (b / 2) (feedback (a % 2)) (feedback (b % 2))

pub clocks-xor : (n a b : ℕ) → clocks n (bit_xor a b) ≡ bit_xor (clocks n a) (clocks n b)
clocks-xor zero a b = refl
clocks-xor (suc n) a b = ap (clocks n) (clock-xor a b) ∙ clocks-xor n (clock a) (clock b)

-- Zeros fall out without feedback.
clock-double : (y : ℕ) → clock (y + y) ≡ y
unfolding clock
clock-double y =
    let half : (y + y) / 2 ≡ y = omega arith in
    let even : (y + y) % 2 ≡ 0 = omega arith in rw (half, even) (bit_xor-zero y)

clocks-shift : (n y : ℕ) → clocks n (shift n y) ≡ y
clocks-shift zero y = refl
clocks-shift (suc n) y = ap (clocks n) (clock-double (shift n y)) ∙ clocks-shift n y

-- whether a part of the table, from an index on, holds what eight steps make of the index
matches : ℕ → List ℕ → Bool
matches index [] = true
matches index (x ∷ xs) = (x == clocks 8 index) && matches (suc index) xs

table-matches : matches 0 table ≡ true
unfolding matches clock
table-matches = refl

entry-matches :
    (index : ℕ) (xs : List ℕ) (i : ℕ)
    → matches index xs ≡ true
    → i < length xs
    → entry xs i ≡ clocks 8 (index + i)
unfolding matches
entry-matches index [] i h inside = absurd (omega arith)
entry-matches index (x ∷ xs) zero h inside =
    let here : index + 0 ≡ index = omega arith in
    rw here ((==_iff x (clocks 8 index)).0 (ground (arith, h)))
entry-matches index (x ∷ xs) (suc i) h inside =
    let there : index + suc i ≡ suc index + i = omega arith in
    rw there (entry-matches (suc index) xs i (ground (arith, h)) (omega arith))

entry-table : (i : ℕ) → i < 256 → entry table i ≡ clocks 8 i
entry-table i h =
    let from_zero : 0 + i ≡ i = omega arith in
    entry-matches 0 table i table-matches h ∙ ap (clocks 8) from_zero

-- A step by table is eight steps of the register.
pub next_value-clocks :
    (value byte : ℕ) → byte < 256 → next_value value byte ≡ clocks 8 (bit_xor value byte)
unfolding next_value
next_value-clocks value byte h =
    let high = value / 256 in
    let low = value % 256 in
    let parts : value ≡ bit_xor low (shift 8 high) =
      omega (arith, bit_xor-shift 8 low high (omega arith)) in
    let index = bit_xor_less 8 low byte (omega arith) (omega arith) in
    let whole : clocks 8 (bit_xor value byte) ≡ bit_xor (clocks 8 (bit_xor low byte)) high =
      ap (λ v. clocks 8 (bit_xor v byte)) parts
      ∙ (ap (clocks 8) (
            bit_xor_assoc low (shift 8 high) byte
            ∙ (ap (bit_xor low) (bit_xor_comm (shift 8 high) byte)
                ∙ sym (bit_xor_assoc low byte (shift 8 high))))
          ∙ (clocks-xor 8 (bit_xor low byte) (shift 8 high)
              ∙ ap (bit_xor (clocks 8 (bit_xor low byte))) (clocks-shift 8 high))) in
    ap (bit_xor high) (entry-table (bit_xor low byte) index)
    ∙ (bit_xor_comm high (clocks 8 (bit_xor low byte)) ∙ sym whole)

-- `from_buffer` returns what the register of CRC-32 holds after the same bytes, a bit at a time with
-- the polynomial 0x04C11DB7, from any value on.
pub from_bytes-bitwise_value :
    (bytes : List ℕ) (value : ℕ)
    → All (λ byte. byte < 256) bytes
    → from_bytes bytes value ≡ bitwise_value bytes value
unfolding from_bytes bitwise_value
from_bytes-bitwise_value [] value v = refl
from_bytes-bitwise_value (byte ∷ bytes) value (v, vs) =
    ap (from_bytes bytes) (next_value-clocks value byte v)
    ∙ from_bytes-bitwise_value bytes (clocks 8 (bit_xor value byte)) vs
