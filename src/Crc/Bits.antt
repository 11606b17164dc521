-- ===== src/Crc/Bits.antt =====
-- Laws of exclusive or on the native numbers.
use Prim.Native.Nat.{bit_xor, digits, differ, bit_xor-bitwise}
use aether_client_cpp_new.Prelude.{
  ℕ, zero, suc, ◌+◌, ◌-◌, ◌*◌, ◌/◌, ◌%◌, ◌≤◌, ◌<◌, ◌≡◌, refl, sym, ap, ◌∙◌, arith,
}

-- the recursion of `bit_xor`, on a count of digits to go
abbrev by_digits : ℕ → ℕ → ℕ → ℕ
by_digits count left right = digits (λ rest. rest) differ count left right

-- One more digit to go than there are changes nothing.
one_more :
    (count left right : ℕ)
    → left ≤ count
    → by_digits (suc count) left right ≡ by_digits count left right
one_more zero zero right h = refl
one_more (suc count) zero right h = refl
one_more zero (suc left) right h = absurd (omega arith)
one_more (suc count) (suc left) right h =
    let halves = one_more count (suc left / 2) (right / 2) (omega arith) in omega (arith, halves)

by_digits-bit_xor :
    (spare left right : ℕ) → by_digits (spare + left) left right ≡ bit_xor left right
by_digits-bit_xor zero left right =
    let none : 0 + left ≡ left = omega arith in rw none (sym (bit_xor-bitwise left right))
by_digits-bit_xor (suc spare) left right =
    let more : suc spare + left ≡ suc (spare + left) = omega arith in
    rw more (one_more (spare + left) left right (omega arith) ∙ by_digits-bit_xor spare left right)

differ_bits : (x y : ℕ) → x < 2 → y < 2 → differ x y ≡ (x + y) % 2
differ_bits zero zero p q = refl
differ_bits zero (suc zero) p q = refl
differ_bits (suc zero) zero p q = refl
differ_bits (suc zero) (suc zero) p q = refl
differ_bits (suc (suc x)) y p q = absurd (omega arith)
differ_bits zero (suc (suc y)) p q = absurd (omega arith)
differ_bits (suc zero) (suc (suc y)) p q = absurd (omega arith)

pub zero-bit_xor : (b : ℕ) → bit_xor 0 b ≡ b
zero-bit_xor b = bit_xor-bitwise 0 b

pub bit_xor_step : (a b : ℕ) → bit_xor a b ≡ bit_xor (a / 2) (b / 2) * 2 + (a + b) % 2
bit_xor_step zero b = omega (arith, zero-bit_xor b, zero-bit_xor (b / 2))
bit_xor_step (suc a) b =
    let half = suc a / 2 in
    let enough : a - half + half ≡ a = omega arith in
    let later : by_digits a half (b / 2) ≡ bit_xor half (b / 2) =
      ap (λ n. by_digits n half (b / 2)) (sym enough) ∙ by_digits-bit_xor (a - half) half (b / 2) in
    let lowest = differ_bits (suc a % 2) (b % 2) (omega arith) (omega arith) in
    omega (arith, bit_xor-bitwise (suc a) b, later, lowest)

pub half-bit_xor : (a b : ℕ) → bit_xor a b / 2 ≡ bit_xor (a / 2) (b / 2)
half-bit_xor a b = omega (arith, bit_xor_step a b)

pub parity-bit_xor : (a b : ℕ) → bit_xor a b % 2 ≡ (a + b) % 2
parity-bit_xor a b = omega (arith, bit_xor_step a b)

xor_comm_fuel : (n a b : ℕ) → a ≤ n → b ≤ n → bit_xor a b ≡ bit_xor b a
xor_comm_fuel zero zero zero p q = refl
xor_comm_fuel zero (suc a) b p q = absurd (omega arith)
xor_comm_fuel zero zero (suc b) p q = absurd (omega arith)
xor_comm_fuel (suc n) a b p q = omega (
  arith,
  bit_xor_step a b,
  bit_xor_step b a,
  xor_comm_fuel n (a / 2) (b / 2) (omega arith) (omega arith),
)

pub bit_xor_comm : (a b : ℕ) → bit_xor a b ≡ bit_xor b a
bit_xor_comm a b = xor_comm_fuel (a + b) a b (omega arith) (omega arith)

pub bit_xor-zero : (a : ℕ) → bit_xor a 0 ≡ a
bit_xor-zero a = bit_xor_comm a 0 ∙ zero-bit_xor a

xor_assoc_fuel :
    (n a b c : ℕ) → a ≤ n → b ≤ n → c ≤ n → bit_xor (bit_xor a b) c ≡ bit_xor a (bit_xor b c)
xor_assoc_fuel zero zero b c p q r =
    ap (λ x. bit_xor x c) (zero-bit_xor b) ∙ sym (zero-bit_xor (bit_xor b c))
xor_assoc_fuel zero (suc a) b c p q r = absurd (omega arith)
xor_assoc_fuel (suc n) a b c p q r =
    let left = ap (λ x. bit_xor x (c / 2)) (half-bit_xor a b) in
    let right = ap (λ x. bit_xor (a / 2) x) (half-bit_xor b c) in
    omega (
      arith,
      left,
      right,
      bit_xor_step (bit_xor a b) c,
      bit_xor_step a (bit_xor b c),
      parity-bit_xor a b,
      parity-bit_xor b c,
      xor_assoc_fuel n (a / 2) (b / 2) (c / 2) (omega arith) (omega arith) (omega arith),
    )

pub bit_xor_assoc : (a b c : ℕ) → bit_xor (bit_xor a b) c ≡ bit_xor a (bit_xor b c)
bit_xor_assoc a b c = xor_assoc_fuel (a + b + c) a b c (omega arith) (omega arith) (omega arith)

xor_self_fuel : (n a : ℕ) → a ≤ n → bit_xor a a ≡ 0
xor_self_fuel zero zero p = refl
xor_self_fuel zero (suc a) p = absurd (omega arith)
xor_self_fuel (suc n) a p = omega (arith, bit_xor_step a a, xor_self_fuel n (a / 2) (omega arith))

pub bit_xor_self : (a : ℕ) → bit_xor a a ≡ 0
bit_xor_self a = xor_self_fuel a a (omega arith)

pub bit_xor_swap :
    (a b c d : ℕ) → bit_xor (bit_xor a b) (bit_xor c d) ≡ bit_xor (bit_xor a c) (bit_xor b d)
bit_xor_swap a b c d =
    bit_xor_assoc a b (bit_xor c d)
    ∙ (ap (bit_xor a) (
          sym (bit_xor_assoc b c d)
          ∙ (ap (λ x. bit_xor x d) (bit_xor_comm b c) ∙ bit_xor_assoc c b d))
        ∙ sym (bit_xor_assoc a c (bit_xor b d)))

pub bit_xor_cancel : (a b c : ℕ) → bit_xor a b ≡ bit_xor a c → b ≡ c
bit_xor_cancel a b c e = sym (back b) ∙ (ap (bit_xor a) e ∙ back c)
  where
    back : (x : ℕ) → bit_xor a (bit_xor a x) ≡ x
    back x = sym (bit_xor_assoc a a x) ∙ (ap (λ y. bit_xor y x) (bit_xor_self a) ∙ zero-bit_xor x)

-- a number of binary digits: `pow k` is 2 to the power of k, `shift k` moves up by k digits
abbrev pub pow : ℕ → ℕ
pow zero = 1
pow (suc k) = pow k + pow k

abbrev pub shift : ℕ → ℕ → ℕ
shift zero y = y
shift (suc k) y = shift k y + shift k y

pub bit_xor_less : (k a b : ℕ) → a < pow k → b < pow k → bit_xor a b < pow k
bit_xor_less zero zero zero p q = omega (arith, zero-bit_xor 0)
bit_xor_less zero (suc a) b p q = absurd (omega arith)
bit_xor_less zero zero (suc b) p q = absurd (omega arith)
bit_xor_less (suc k) a b p q =
    omega (arith, bit_xor_step a b, bit_xor_less k (a / 2) (b / 2) (omega arith) (omega arith))

-- No digit is in both.
pub bit_xor-shift : (k x y : ℕ) → x < pow k → bit_xor x (shift k y) ≡ x + shift k y
bit_xor-shift zero zero y p = omega (arith, zero-bit_xor y)
bit_xor-shift zero (suc x) y p = absurd (omega arith)
bit_xor-shift (suc k) x y p =
    let half : (shift k y + shift k y) / 2 ≡ shift k y = omega arith in
    omega (
      arith,
      bit_xor_step x (shift k y + shift k y),
      ap (bit_xor (x / 2)) half,
      bit_xor-shift k (x / 2) y (omega arith),
    )
