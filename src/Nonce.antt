-- ===== src/Nonce.antt =====
-- aether/crypto/crypto_nonce.cpp: the nonce of ChaCha20-Poly1305, an array of bytes, on a
-- little-endian machine. `Init` fills it with random bytes, which are an argument here.
mod Tests
use aether_client_cpp_new.Prelude.{
  ℕ, zero, suc, ◌≡◌, refl, subst, ap, ◌∙◌, List, [], ◌∷◌, ◌++◌, length, drop, drop-length_append,
}
use aether_client_cpp_new.MStream.{to_bytes}

-- `Next`: the statement `v = +1` stores one in the first eight bytes
pub next : List ℕ → List ℕ
unfolding to_bytes
next nonce = to_bytes 8 1 ++ drop 8 nonce

-- `Init`
unfoldable init : List ℕ → List ℕ → List ℕ
init random nonce = random

-- `Next` is called several times
abbrev pub next_times : ℕ → List ℕ → List ℕ
next_times zero nonce = nonce
next_times (suc n) nonce = next_times n (next nonce)

next-append :
    (low high : List ℕ) → length low ≡ 8 → next (low ++ high) ≡ 1 ∷ 0 ∷ 0 ∷ 0 ∷ 0 ∷ 0 ∷ 0 ∷ 0 ∷ high
unfolding next
next-append low high h =
    ap (λ l. to_bytes 8 1 ++ l)
      (subst (λ n. drop n (low ++ high) ≡ high) h (drop-length_append low high))

-- However often `Next` is called on a nonce of at least eight bytes, but at least once: its first
-- eight bytes are then the number 1, the lowest byte first, and those behind them are as they were.
pub next_times_lem :
    (n : ℕ) (low high : List ℕ)
    → length low ≡ 8
    → next_times (suc n) (low ++ high) ≡ 1 ∷ 0 ∷ 0 ∷ 0 ∷ 0 ∷ 0 ∷ 0 ∷ 0 ∷ high
next_times_lem zero low high h = next-append low high h
next_times_lem (suc n) low high h =
    ap (next_times (suc n)) (next-append low high h)
    ∙ next_times_lem n (1 ∷ 0 ∷ 0 ∷ 0 ∷ 0 ∷ 0 ∷ 0 ∷ 0 ∷ []) high refl
