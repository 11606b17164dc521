-- ===== src/Telemetry/Sums.antt =====
-- Sums, maxima and lists gathered over the first n numbers, for what all statistics hold together.
use aether_client_cpp_new.Prelude.{
  ℕ, zero, suc, ◌+◌, ◌%◌, ◌^◌, ◌<◌, max, ◌≡◌, refl, ap, ap₂, ◌∙◌, sym, arith, Bool, true, false,
  List, [], ◌++◌, append_assoc, ◌==◌, if◌then◌else◌, Bool-cases, inl, inr,
}

unfoldable pub total : (ℕ → ℕ) → ℕ → ℕ
total f zero = 0
total f (suc n) = total f n + f n

unfoldable pub highest : (ℕ → ℕ) → ℕ → ℕ
highest f zero = 0
highest f (suc n) = max (highest f n) (f n)

unfoldable pub gather {ℓ} : {A : Type ℓ} → (ℕ → List A) → ℕ → List A
gather f zero = []
gather f (suc n) = gather f n ++ f n

pub total-eq : (f g : ℕ → ℕ) (n : ℕ) → ((u : ℕ) → g u ≡ f u) → total g n ≡ total f n
unfolding total
total-eq f g zero h = refl
total-eq f g (suc n) h = ap₂ ◌+◌ (total-eq f g n h) (h n)

total_below :
    (f g : ℕ → ℕ) (k v n : ℕ)
    → n < suc k
    → ((u : ℕ) → g u ≡ (if u == k then v else f u))
    → total g n ≡ total f n
unfolding total
total_below f g k v zero b h = refl
total_below f g k v (suc n) b h = ground (arith, total_below f g k v n, h n)

pub total_update :
    (f g : ℕ → ℕ) (k v n : ℕ)
    → k < n
    → ((u : ℕ) → g u ≡ (if u == k then v else f u))
    → total g n + f k ≡ total f n + v
unfolding total
total_update f g k v zero b h = absurd (omega arith)
total_update f g k v (suc n) b h = elim (Bool-cases (n == k)) [
  | inl e ↦
      let same : n ≡ k = ground (arith, e) in
      let below = total_below f g k v n (omega (arith, same)) h in
      let last : g n ≡ v = ground (arith, h n, e) in
      let old : f n ≡ f k = ap f same in omega (arith, below, last, old)
  | inr e ↦
      let last : g n ≡ f n = ground (arith, h n, e) in
      omega (arith, total_update f g k v n (ground (arith, e)) h, last)
]

pub highest-eq : (f g : ℕ → ℕ) (n : ℕ) → ((u : ℕ) → g u ≡ f u) → highest g n ≡ highest f n
unfolding highest
highest-eq f g zero h = refl
highest-eq f g (suc n) h = ap₂ max (highest-eq f g n h) (h n)

highest_below :
    (f g : ℕ → ℕ) (k v n : ℕ)
    → n < suc k
    → ((u : ℕ) → g u ≡ (if u == k then v else f u))
    → highest g n ≡ highest f n
unfolding highest
highest_below f g k v zero b h = refl
highest_below f g k v (suc n) b h = ground (arith, highest_below f g k v n, h n)

pub highest_update :
    (f g : ℕ → ℕ) (k d n : ℕ)
    → k < n
    → ((u : ℕ) → g u ≡ (if u == k then max (f k) d else f u))
    → highest g n ≡ max (highest f n) d
unfolding highest
highest_update f g k d zero b h = absurd (omega arith)
highest_update f g k d (suc n) b h = elim (Bool-cases (n == k)) [
  | inl e ↦
      let same : n ≡ k = ground (arith, e) in
      let below = highest_below f g k (max (f k) d) n (omega (arith, same)) h in
      let last : g n ≡ max (f k) d = ground (arith, h n, e) in
      let old : f n ≡ f k = ap f same in omega (arith, below, last, old)
  | inr e ↦
      let last : g n ≡ f n = ground (arith, h n, e) in
      omega (arith, highest_update f g k d n (ground (arith, e)) h, last)
]

-- one of the numbers grows and wraps at 32 bits
pub total_grows :
    (f g : ℕ → ℕ) (k d n c : ℕ)
    → k < n
    → ((u : ℕ) → g u ≡ (if u == k then (f u + d) % 2 ^ 32 else f u))
    → total f n % 2 ^ 32 ≡ c % 2 ^ 32
    → total g n % 2 ^ 32 ≡ (c + d) % 2 ^ 32
total_grows f g k d n c b h e =
    let sum =
      total_update f g k ((f k + d) % 2 ^ 32) n b
        (λ u. h u ∙ at u (u == k) (λ t. ground (arith, t))) in
    omega (arith, sum, e)
  where
    at :
        (u : ℕ) (t : Bool)
        → (t ≡ true → u ≡ k)
        → (if t then (f u + d) % 2 ^ 32 else f u) ≡ (if t then (f k + d) % 2 ^ 32 else f u)
    at u true same = ap (λ x. (f x + d) % 2 ^ 32) (same refl)
    at u false same = refl

pub highest_grows :
    (f g : ℕ → ℕ) (k d n c : ℕ)
    → k < n
    → ((u : ℕ) → g u ≡ (if u == k then max (f u) d else f u))
    → highest f n ≡ c
    → highest g n ≡ max c d
highest_grows f g k d n c b h e =
    highest_update f g k d n b (λ u. h u ∙ at u (u == k) (λ t. ground (arith, t)))
    ∙ ap (λ x. max x d) e
  where
    at :
        (u : ℕ) (t : Bool)
        → (t ≡ true → u ≡ k)
        → (if t then max (f u) d else f u) ≡ (if t then max (f k) d else f u)
    at u true same = ap (λ x. max (f x) d) (same refl)
    at u false same = refl

module _ {ℓ} {A : Type ℓ} where
  pub gather-eq :
      (f g : ℕ → List A) (n : ℕ) → ((u : ℕ) → u < n → g u ≡ f u) → gather g n ≡ gather f n
  unfolding gather
  gather-eq f g zero h = refl
  gather-eq f g (suc n) h =
      ap₂ ◌++◌ (gather-eq f g n (λ u b. h u (omega arith))) (h n (omega arith))

  -- something put behind the last list
  pub gather_last :
      (f g : ℕ → List A) (n : ℕ) (xs : List A)
      → ((u : ℕ) → g u ≡ (if u == n then f u ++ xs else f u))
      → gather g (suc n) ≡ gather f (suc n) ++ xs
  unfolding gather
  gather_last f g n xs h =
      let below : gather g n ≡ gather f n = gather-eq f g n (λ u b. ground (arith, h u)) in
      let last : g n ≡ f n ++ xs = ground (arith, h n) in
      ap₂ ◌++◌ below last ∙ sym (append_assoc (gather f n) (f n) xs)
