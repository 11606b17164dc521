-- ===== src/Registry/Entries.antt =====
-- The lists of classes and of factories of aether/obj/registry.cpp.
use aether_client_cpp_new.Prelude.{
  ℕ, ◌≡◌, refl, ◌∙◌, arith, true, false, some, List, [], ◌∷◌, ◌++◌, if◌then◌else◌, All, ◌==◌,
  Bool-cases, inl, inr,
}
use aether_client_cpp_new.FileSystem.{find}
use aether_client_cpp_new.FileSystem.Maps.{is_some}
use aether_client_cpp_new.Ptr.Members.{elem, elem-append}
use aether_client_cpp_new.Registry.{push_derived, remove_class, remove_derived, erase_key}

-- a list of classes that is not empty and has classes with a property only
abbrev pub Filled : (ℕ → Type 0) → ℕ × List ℕ → Type 0
Filled P (b, cs) = ((c : ℕ) × (elem c cs ≡ true)) × ((c : ℕ) → elem c cs ≡ true → P c)

remove_class-elem :
    (cls c : ℕ) (cs : List ℕ)
    → elem c (remove_class cls cs) ≡ true
    → (elem c cs ≡ true) × ((c == cls) ≡ false)
unfolding remove_class
remove_class-elem cls c [] h = absurd (cc)
remove_class-elem cls c (x ∷ cs) h = elim (Bool-cases (x == cls)) [
  | inl f ↦ let (m, n) = remove_class-elem cls c cs (rw f at h) in (ground (arith, m), n)
  | inr f ↦ elim (Bool-cases (x == c)) [
    | inl g ↦ let same : x ≡ c = ground (arith, g) in (ground (arith, g), rw (← same) f)
    | inr g ↦ let (m, n) = remove_class-elem cls c cs (rw (f, g) at h) in (rw g m, n)
  ]
]

module _ (P : ℕ → Type 0) where
  pub push_derived-Filled :
      (base cls : ℕ) (m : List (ℕ × List ℕ))
      → P cls
      → All (Filled P) m
      → All (Filled P) (push_derived base cls m)
  unfolding push_derived
  push_derived-Filled base cls [] p h =
      (((cls, ground arith), λ c e. let same : cls ≡ c = ground (arith, e) in rw (← same) p), tt)
  push_derived-Filled base cls ((b, cs) ∷ m) p ((some_class, g), h) =
      elim (Bool-cases (b == base)) [
        | inl f ↦ rw f (((cls, end), both), h)
        | inr f ↦ rw f ((some_class, g), push_derived-Filled base cls m p h)
      ]
    where
      end : elem cls (cs ++ cls ∷ []) ≡ true
      end = elem-append cls cs (cls ∷ []) ∙ ground arith

      both : (c : ℕ) → elem c (cs ++ cls ∷ []) ≡ true → P c
      both c e = elim (Bool-cases (elem c cs)) [
        | inl m ↦ g c m
        | inr n ↦
            let same : cls ≡ c = ground (arith, elem-append c cs (cls ∷ []), e, n) in rw (← same) p
      ]

  pub find-Filled :
      (base : ℕ) (m : List (ℕ × List ℕ)) (cs : List ℕ)
      → All (Filled P) m
      → find base m ≡ some cs
      → Filled P (base, cs)
  unfolding find
  find-Filled base [] cs h e = absurd (cc)
  find-Filled base ((b, ds) ∷ m) cs (g, h) e = elim (Bool-cases (b == base)) [
    | inl f ↦ let same : ds ≡ cs = ground (arith, rw f at e) in rw (← same) g
    | inr f ↦ find-Filled base m cs h (rw f at e)
  ]

  pub erase_key-Filled :
      (key : ℕ) (m : List (ℕ × List ℕ)) → All (Filled P) m → All (Filled P) (erase_key key m)
  unfolding erase_key
  erase_key-Filled key [] h = tt
  erase_key-Filled key ((b, cs) ∷ m) (g, h) = elim (Bool-cases (b == key)) [
    | inl f ↦ rw f h
    | inr f ↦ rw f (g, erase_key-Filled key m h)
  ]

pub remove_derived-Filled :
    (P Q : ℕ → Type 0) (cls : ℕ) (m : List (ℕ × List ℕ))
    → ((c : ℕ) → (c == cls) ≡ false → P c → Q c)
    → All (Filled P) m
    → All (Filled Q) (remove_derived cls m)
unfolding remove_derived
remove_derived-Filled P Q cls [] k h = tt
remove_derived-Filled P Q cls ((b, cs) ∷ m) k ((_, g), h) =
    kept (remove_class cls cs) refl (remove_derived-Filled P Q cls m k h)
  where
    kept :
        (rest : List ℕ)
        → remove_class cls cs ≡ rest
        → All (Filled Q) (remove_derived cls m)
        → All (Filled Q) (elim rest [
          | [] ↦ remove_derived cls m
          | c ∷ more ↦ (b, c ∷ more) ∷ remove_derived cls m
        ])
    kept [] e later = later
    kept (c ∷ more) e later = (
      ((c, ground arith), λ x i. let (j, n) = remove_class-elem cls x cs (rw e i) in k x n (g x j)),
      later,
    )

pub find-erase_key :
    {F : Type 0} (key c : ℕ) (m : List (ℕ × F))
    → (c == key) ≡ false
    → find c (erase_key key m) ≡ find c m
unfolding find erase_key
find-erase_key key c [] n = refl
find-erase_key key c ((k, v) ∷ m) n = ground (arith, find-erase_key key c m n)

pub find-append :
    {F : Type 0} (c k : ℕ) (v : F) (m : List (ℕ × F))
    → is_some (find c (m ++ (k, v) ∷ [])) ≡ (if is_some (find c m) then true else k == c)
unfolding find
find-append c k v [] = ground arith
find-append c k v ((j, w) ∷ m) = ground (arith, find-append c k v m)

pub Filled-map :
    (P Q : ℕ → Type 0) (m : List (ℕ × List ℕ))
    → ((c : ℕ) → P c → Q c)
    → All (Filled P) m
    → All (Filled Q) m
Filled-map P Q [] k h = tt
Filled-map P Q ((b, cs) ∷ m) k ((some_class, g), h) =
    ((some_class, λ c e. k c (g c e)), Filled-map P Q m k h)
