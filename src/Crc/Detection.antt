-- ===== src/Crc/Detection.antt =====
-- The checksum of crc.h tells two buffers apart that differ in one byte.
use Prim.Native.Nat.{bit_xor}
use aether_client_cpp_new.Prelude.{
  ℕ, zero, suc, ◌/◌, ◌%◌, ◌^◌, ◌<◌, ◌≡◌, ◌≢◌, refl, sym, ap, ◌∙◌, arith, List, [], ◌∷◌, ◌++◌, All,
}
use aether_client_cpp_new.Crc.{next_value, from_bytes}
use aether_client_cpp_new.Crc.Bits.{
  bit_xor-zero, bit_xor_comm, bit_xor_self, bit_xor_cancel, pow, bit_xor_less,
}
use aether_client_cpp_new.Crc.Register.{
  polynomial, feedback, clock, clocks, clocks-xor, next_value-clocks,
}

feedback_less : (b : ℕ) → feedback b < pow 32
feedback_less zero = omega arith
feedback_less (suc b) = omega arith

clock_less : (r : ℕ) → r < pow 32 → clock r < pow 32
unfolding clock
clock_less r h = bit_xor_less 32 (r / 2) (feedback (r % 2)) (omega arith) (feedback_less (r % 2))

clocks_less : (n r : ℕ) → r < pow 32 → clocks n r < pow 32
clocks_less zero r h = h
clocks_less (suc n) r h = clocks_less n (clock r) (clock_less r h)

xor-eq : (a b : ℕ) → bit_xor a b ≡ 0 → b ≡ a
xor-eq a b e = bit_xor_cancel a b a (e ∙ sym (bit_xor_self a))

-- The register comes to 0 from 0 only: the polynomial has the highest bit.
clock-zero : (r : ℕ) → r < pow 32 → clock r ≡ 0 → r ≡ 0
unfolding clock
clock-zero r h e = by_feedback (r % 2) refl
  where
    by_feedback : (b : ℕ) → r % 2 ≡ b → r ≡ 0
    by_feedback zero p =
        let half = ap (λ b. bit_xor (r / 2) (feedback b)) p in
        omega (arith, e, sym half ∙ e, bit_xor-zero (r / 2))
    by_feedback (suc b) p =
        let half = ap (λ b. bit_xor (r / 2) (feedback b)) p in
        absurd (omega (arith, xor-eq (r / 2) polynomial (sym half ∙ e)))

clocks-zero : (n r : ℕ) → r < pow 32 → clocks n r ≡ 0 → r ≡ 0
clocks-zero zero r h e = e
clocks-zero (suc n) r h e = clock-zero r h (clocks-zero n (clock r) (clock_less r h) e)

clocks_cancel : (n a b : ℕ) → a < pow 32 → b < pow 32 → clocks n a ≡ clocks n b → a ≡ b
clocks_cancel n a b h h' e =
    let same : clocks n (bit_xor b a) ≡ 0 =
      clocks-xor n b a ∙ (ap (bit_xor (clocks n b)) e ∙ bit_xor_self (clocks n b)) in
    xor-eq b a (clocks-zero n (bit_xor b a) (bit_xor_less 32 b a h' h) same)

module _ (a b : ℕ) (a_fits : a < pow 32) (b_fits : b < pow 32) where
  next_value_cancel : (byte : ℕ) → byte < 256 → next_value a byte ≡ next_value b byte → a ≡ b
  next_value_cancel byte h e =
      let fits : byte < pow 32 = omega arith in
      let before =
        clocks_cancel 8 (bit_xor a byte) (bit_xor b byte) (bit_xor_less 32 a byte a_fits fits)
          (bit_xor_less 32 b byte b_fits fits)
          (sym (next_value-clocks a byte h) ∙ (e ∙ next_value-clocks b byte h)) in
      bit_xor_cancel byte a b (bit_xor_comm byte a ∙ (before ∙ bit_xor_comm b byte))

next_value_less : (value byte : ℕ) → value < pow 32 → byte < 256 → next_value value byte < pow 32
next_value_less value byte v h =
    let after = clocks_less 8 (bit_xor value byte) (bit_xor_less 32 value byte v (omega arith)) in
    omega (arith, after, next_value-clocks value byte h)

from_bytes_less :
    (bytes : List ℕ) (value : ℕ)
    → All (λ byte. byte < 256) bytes
    → value < pow 32
    → from_bytes bytes value < pow 32
unfolding from_bytes
from_bytes_less [] value v h = h
from_bytes_less (byte ∷ bytes) value (v, vs) h =
    from_bytes_less bytes (next_value value byte) vs (next_value_less value byte h v)

from_bytes_cancel :
    (bytes : List ℕ) (a b : ℕ)
    → All (λ byte. byte < 256) bytes
    → a < pow 32
    → b < pow 32
    → from_bytes bytes a ≡ from_bytes bytes b
    → a ≡ b
unfolding from_bytes
from_bytes_cancel [] a b v h h' e = e
from_bytes_cancel (byte ∷ bytes) a b (v, vs) h h' e =
    let next =
      from_bytes_cancel bytes (next_value a byte) (next_value b byte) vs
        (next_value_less a byte h v) (next_value_less b byte h' v) e in
    next_value_cancel a b h h' byte v next

from_bytes-append :
    (xs ys : List ℕ) (value : ℕ) → from_bytes (xs ++ ys) value ≡ from_bytes ys (from_bytes xs value)
unfolding from_bytes
from_bytes-append [] ys value = refl
from_bytes-append (x ∷ xs) ys value = from_bytes-append xs ys (next_value value x)

-- Two buffers of bytes that differ in exactly one byte get different values from `from_buffer`, from
-- any 32-bit value on.
pub from_bytes_detects :
    (front back : List ℕ) (x y value : ℕ)
    → All (λ byte. byte < 256) front
    → All (λ byte. byte < 256) back
    → x < 256
    → y < 256
    → value < 2 ^ 32
    → x ≢ y
    → from_bytes (front ++ (x ∷ back)) value ≢ from_bytes (front ++ (y ∷ back)) value
unfolding from_bytes
from_bytes_detects front back x y value vf vb hx hy h differs = λ e.
    let r = from_bytes front value in
    let r_fits = from_bytes_less front value vf (omega arith) in
    let next =
      from_bytes_cancel back (next_value r x) (next_value r y) vb (next_value_less r x r_fits hx)
        (next_value_less r y r_fits hy)
        (sym (from_bytes-append front (x ∷ back) value)
          ∙ (e ∙ from_bytes-append front (y ∷ back) value)) in
    let before =
      clocks_cancel 8 (bit_xor r x) (bit_xor r y) (bit_xor_less 32 r x r_fits (omega arith))
        (bit_xor_less 32 r y r_fits (omega arith))
        (sym (next_value-clocks r x hx) ∙ (next ∙ next_value-clocks r y hy)) in
    differs (bit_xor_cancel r x y before)
