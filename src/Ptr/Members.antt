-- ===== src/Ptr/Members.antt =====
-- Membership in lists of numbers.
use aether_client_cpp_new.Prelude.{
  ℕ, ◌≡◌, refl, ◌∙◌, arith, Bool, true, false, List, [], ◌∷◌, ◌++◌, All, ◌==◌, if◌then◌else◌,
  Bool-cases, inl, inr,
}

abbrev pub elem : ℕ → List ℕ → Bool
elem a [] = false
elem a (x ∷ xs) = if x == a then true else elem a xs

abbrev pub Nodup : List ℕ → Type 0
Nodup [] = Unit
Nodup (x ∷ xs) = (elem x xs ≡ false) × Nodup xs

pub elem-append :
    (a : ℕ) (xs ys : List ℕ) → elem a (xs ++ ys) ≡ (if elem a xs then true else elem a ys)
elem-append a [] ys = refl
elem-append a (x ∷ xs) ys = ground (arith, elem-append a xs ys)

pub All-elem {κ} : (P : ℕ → Type κ) (a : ℕ) (xs : List ℕ) → All P xs → elem a xs ≡ true → P a
All-elem P a [] h e = absurd (cc)
All-elem P a (x ∷ xs) (p, h) e = elim (Bool-cases (x == a)) [
  | inl f ↦ let same : x ≡ a = ground (arith, f) in rw (← same) p
  | inr f ↦ All-elem P a xs h (rw f at e)
]

pub All-of {κ} : (P : ℕ → Type κ) (xs : List ℕ) → ((a : ℕ) → elem a xs ≡ true → P a) → All P xs
All-of P [] h = tt
All-of P (x ∷ xs) h = (
  h x (ground arith),
  All-of P xs (λ a e. h a (elim (Bool-cases (x == a)) [ inl f ↦ rw f refl | inr f ↦ rw f e ])),
)

pub All-map {κ κ'} :
    (P : ℕ → Type κ) (Q : ℕ → Type κ') (xs : List ℕ) → ((a : ℕ) → P a → Q a) → All P xs → All Q xs
All-map P Q [] f h = tt
All-map P Q (x ∷ xs) f (p, h) = (f x p, All-map P Q xs f h)

pub Nodup-append :
    (xs ys : List ℕ) → Nodup xs → Nodup ys → All (λ y. elem y xs ≡ false) ys → Nodup (xs ++ ys)
Nodup-append [] ys n m h = m
Nodup-append (x ∷ xs) ys (o, n) m h = (
  elem-append x xs ys ∙ rw o (absent ys h),
  Nodup-append xs ys n m (All-map _ _ ys (λ y e. ground (arith, e)) h),
)
  where
    absent : (ys : List ℕ) → All (λ y. elem y (x ∷ xs) ≡ false) ys → elem x ys ≡ false
    absent [] h = refl
    absent (y ∷ ys) (e, h) = ground (arith, absent ys h)
