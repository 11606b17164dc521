-- ===== src/ProofOfWork/Passwords.antt =====
-- The passwords of proof_of_work.cpp are counted by their numbers.
use aether_client_cpp_new.Prelude.{
  ℕ, ◌+◌, ◌%◌, ◌^◌, ◌<◌, ◌≡◌, refl, ◌∙◌, arith, [], ◌∷◌, All, length,
}
use aether_client_cpp_new.ProofOfWork.{Password, get, increment}

abbrev pub IsByte : ℕ → Type 0
IsByte v = v < 256

pub increment-All : (p : Password) → All IsByte p → All IsByte (increment p)
unfolding increment
increment-All [] h = tt
increment-All (v ∷ vs) (h, hs) = ground (arith, increment-All vs)

pub length-increment : (p : Password) → length (increment p) ≡ length p
unfolding increment
length-increment [] = refl
length-increment (v ∷ vs) = ground (arith, length-increment vs)

-- below the highest number of the four bytes
pub get-increment :
    (a b c d : ℕ)
    → All IsByte (a ∷ b ∷ c ∷ d ∷ [])
    → get (increment (a ∷ b ∷ c ∷ d ∷ [])) ≡ (get (a ∷ b ∷ c ∷ d ∷ []) + 1) % 2 ^ 32
unfolding get increment
get-increment a b c d h = ground arith

pub record IsPassword (p : Password) : Type 0 where
  pub bytes : All IsByte p
  pub size : length p ≡ 4

pub increment-IsPassword : (p : Password) → IsPassword p → IsPassword (increment p)
increment-IsPassword p h = record {
  bytes = increment-All p h.bytes;
  size = length-increment p ∙ h.size;
}

pub get-next : (p : Password) → IsPassword p → get (increment p) ≡ (get p + 1) % 2 ^ 32
get-next [] h = absurd (omega (arith, h.size))
get-next (a ∷ []) h = absurd (omega (arith, h.size))
get-next (a ∷ (b ∷ [])) h = absurd (omega (arith, h.size))
get-next (a ∷ (b ∷ (c ∷ []))) h = absurd (omega (arith, h.size))
get-next (a ∷ (b ∷ (c ∷ (d ∷ [])))) h = get-increment a b c d h.bytes
get-next (a ∷ (b ∷ (c ∷ (d ∷ (e ∷ more))))) h = absurd (omega (arith, h.size))
