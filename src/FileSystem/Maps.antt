-- ===== src/FileSystem/Maps.antt =====
-- Laws of the ordered maps.
use aether_client_cpp_new.Prelude.{
  ℕ, ◌≤◌, ◌<◌, ◌≡◌, refl, ap, ◌∙◌, arith, Bool, true, false, Option, none, some, List, [], ◌∷◌, All,
  ltb, ◌==◌, if◌then◌else◌, Bool-cases, inl, inr,
}
use aether_client_cpp_new.FileSystem.{Map, or_empty, find, at, assign, erase, keys}

-- Each key is below those behind it.
abbrev pub Ascending : List ℕ → Type 0
Ascending [] = Unit
Ascending (k ∷ ks) = All (λ j. k < j) ks × Ascending ks

below : (k j : ℕ) (ks : List ℕ) → k ≤ j → All (λ i. j < i) ks → All (λ i. k < i) ks
below k j [] h g = tt
below k j (i ∷ ks) h (g, gs) = (omega arith, below k j ks h gs)

-- whether a map has a key
abbrev pub has : ℕ → List ℕ → Bool
has k [] = false
has k (j ∷ ks) = if j == k then true else has k ks

module _ {ℓ} {V : Type ℓ} where
  pub find-assign :
      (key k : ℕ) (v : V) (m : Map V)
      → find k (assign key v m) ≡ (if key == k then some v else find k m)
  unfolding find assign
  find-assign key k v [] = refl
  find-assign key k v ((j, w) ∷ m) = ground (arith, find-assign key k v m)

  pub find-erase :
      (key k : ℕ) (m : Map V) → find k (erase key m) ≡ (if key == k then none else find k m)
  unfolding find erase
  find-erase key k [] = ground arith
  find-erase key k ((j, w) ∷ m) = ground (arith, find-erase key k m)

  above :
      (k key : ℕ) (v : V) (m : Map V)
      → k < key
      → All (λ j. k < j) (keys m)
      → All (λ j. k < j) (keys (assign key v m))
  unfolding keys assign
  above k key v [] h hs = (h, tt)
  above k key v ((j, w) ∷ m) h (g, hs) = ground (arith, above k key v m)

  pub assign-Ascending :
      (key : ℕ) (v : V) (m : Map V) → Ascending (keys m) → Ascending (keys (assign key v m))
  unfolding keys assign
  assign-Ascending key v [] h = (tt, tt)
  assign-Ascending key v ((j, w) ∷ m) (g, h) =
      let later = assign-Ascending key v m h in
      elim (Bool-cases (j == key)) [
        | inl e ↦ rw e (below key j (keys m) (ground (arith, e)) g, h)
        | inr e ↦ elim (Bool-cases (ltb key j)) [
          | inl f ↦
              let less : key < j = ground (arith, f) in
              rw (e, f) ((less, below key j (keys m) (omega arith) g), (g, h))
          | inr f ↦
              let less : j < key = ground (arith, e, f) in rw (e, f) (above j key v m less g, later)
        ]
      ]

  erased_below :
      (j key : ℕ) (m : Map V) → All (λ i. j < i) (keys m) → All (λ i. j < i) (keys (erase key m))
  unfolding keys erase
  erased_below j key [] g = tt
  erased_below j key ((k, w) ∷ m) (g, gs) = ground (arith, erased_below j key m)

  abbrev pub is_some : Option V → Bool
  is_some none = false
  is_some (some v) = true

  pub has-keys : (k : ℕ) (m : Map V) → has k (keys m) ≡ is_some (find k m)
  unfolding keys find
  has-keys k [] = refl
  has-keys k ((j, w) ∷ m) = ground (arith, has-keys k m)

module _ {ℓ} {V : Type ℓ} where
  or_empty-if :
      (b : Bool) (o o' : Option (Map V))
      → or_empty (if b then o else o') ≡ (if b then or_empty o else or_empty o')
  or_empty-if true o o' = refl
  or_empty-if false o o' = refl

  pub at-assign :
      (key k : ℕ) (v : Map V) (m : Map (Map V))
      → at k (assign key v m) ≡ (if key == k then v else at k m)
  unfolding at
  at-assign key k v m =
      ap or_empty (find-assign key k v m) ∙ or_empty-if (key == k) (some v) (find k m)

  pub at-erase :
      (key k : ℕ) (m : Map (Map V)) → at k (erase key m) ≡ (if key == k then [] else at k m)
  unfolding at
  at-erase key k m = ap or_empty (find-erase key k m) ∙ or_empty-if (key == k) none (find k m)
