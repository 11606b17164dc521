-- ===== src/Registry/Distance.antt =====
-- What the distances of aether/obj/registry.cpp tell.
use aether_client_cpp_new.Prelude.{
  ℕ, zero, suc, ◌+◌, ◌<◌, ◌≡◌, refl, arith, true, false, Option, none, some, List, [], ◌∷◌, ◌==◌,
  Bool-cases, ◌⊎◌, inl, inr,
}
use aether_client_cpp_new.FileSystem.{find}
use aether_client_cpp_new.Ptr.Members.{elem}
use aether_client_cpp_new.Registry.{Registry, distance_among, generation_distance_internal}

abbrev pub listed : Option (List ℕ) → List ℕ
listed none = []
listed (some cs) = cs

-- a distance that tells whether something holds
abbrev pub Tells : Option ℕ → Type 0 → Type 0
Tells none P = P → ⊥
Tells (some d) P = (0 < d) × P

Tells-iff : (o : Option ℕ) {P Q : Type 0} → (P → Q) → (Q → P) → Tells o P → Tells o Q
Tells-iff none f g n = λ q. n (g q)
Tells-iff (some d) f g (h, p) = (h, f p)

abbrev pub Known : Option (Option ℕ) → Type 0 → Type 0
Known answer P = (o : Option ℕ) × (answer ≡ some o) × Tells o P

module _ {F : Type 0} (r : Registry F) where
  -- the classes that were registered with a base
  abbrev pub derived_of : ℕ → List ℕ
  derived_of base = listed (find base r.base_to_derived)

  -- a class has another as a base, directly or not
  pub data Derives (derived : ℕ) : ℕ → Type 0 where
    directly : {base : ℕ} → elem derived (derived_of base) ≡ true → Derives derived base
    through :
        {base : ℕ} (c : ℕ)
        → elem c (derived_of base) ≡ true
        → Derives derived c
        → Derives derived base

  pub Derives-trans : (c b : ℕ) {a : ℕ} → Derives c b → Derives b a → Derives c a
  Derives-trans c b d (directly e) = through b e d
  Derives-trans c b d (through x e more) = through x e (Derives-trans c b d more)

  -- one of the classes is the derived one or a base of it
  abbrev Reaches : ℕ → List ℕ → Type 0
  Reaches derived cs = (c : ℕ) × (elem c cs ≡ true) × ((derived ≡ c) ⊎ Derives derived c)

  Reaches-later :
      (derived c : ℕ) (cs : List ℕ)
      → (derived == c) ≡ false
      → (Derives derived c → ⊥)
      → Reaches derived (c ∷ cs)
      → Reaches derived cs
  Reaches-later derived c cs other miss (x, e, why) = elim (Bool-cases (c == x)) [
    | inr f ↦ (x, (rw f at e), why)
    | inl f ↦
        let same : c ≡ x = ground (arith, f) in
        elim why [
          | inl g ↦ absurd (ground (arith, other, same, g))
          | inr d ↦ absurd (miss (rw same d))
        ]
  ]

  -- the distance of a class that is not the derived one, and the rest of the loop
  then_later :
      (derived : ℕ) (go : ℕ → Option (Option ℕ)) (c : ℕ) (cs : List ℕ) (o : Option ℕ)
      → (derived == c) ≡ false
      → go c ≡ some o
      → Tells o (Derives derived c)
      → Known (distance_among go derived cs) (Reaches derived cs)
      → Known (distance_among go derived (c ∷ cs)) (Reaches derived (c ∷ cs))
  unfolding distance_among
  then_later derived go c cs (some d) other e (pos, p) later =
      (some (d + 1), rw (other, e) refl, (omega arith, (c, ground arith, inr p)))
  then_later derived go c cs none other e miss (o, e', t) = (
    o,
    rw (other, e) e',
    Tells-iff o (λ (x, m, why). (x, ground (arith, m), why)) (Reaches-later derived c cs other miss)
        t,
  )

  among_tells :
      (derived : ℕ) (go : ℕ → Option (Option ℕ)) (cs : List ℕ)
      → ((c : ℕ) → elem c cs ≡ true → Known (go c) (Derives derived c))
      → Known (distance_among go derived cs) (Reaches derived cs)
  unfolding distance_among
  among_tells derived go [] h = (none, refl, λ (c, e, why). absurd (cc))
  among_tells derived go (c ∷ cs) h =
      let here : elem c (c ∷ cs) ≡ true = ground arith in
      let later = among_tells derived go cs (λ x m. h x (ground (arith, m))) in
      let (o, e, t) = h c here in
      elim (Bool-cases (derived == c)) [
        | inl same ↦ (some 1, rw same refl, (omega arith, (c, here, inl (ground (arith, same)))))
        | inr other ↦ then_later derived go c cs o other e t later
      ]

  listed_tells :
      (derived : ℕ) (go : ℕ → Option (Option ℕ)) (m : Option (List ℕ))
      → ((c : ℕ) → elem c (listed m) ≡ true → Known (go c) (Derives derived c))
      → Known
          (elim m [ none ↦ some none | some cs ↦ distance_among go derived cs ])
          (Reaches derived (listed m))
  listed_tells derived go none h = (none, refl, λ (c, e, why). absurd (cc))
  listed_tells derived go (some cs) h = among_tells derived go cs h

  Derives-Reaches : {derived base : ℕ} → Derives derived base → Reaches derived (derived_of base)
  Derives-Reaches {derived} (directly e) = (derived, e, inl refl)
  Derives-Reaches (through c e more) = (c, e, inr more)

  Reaches-Derives : {derived base : ℕ} → Reaches derived (derived_of base) → Derives derived base
  Reaches-Derives (c, e, inl same) = directly (rw same e)
  Reaches-Derives (c, e, inr more) = through c e more

  -- Where each class has a rank below that of its bases, the distance is found with fuel above the rank
  -- of the base, and tells whether the other class derives from it.
  pub internal_tells :
      (rank : ℕ → ℕ)
      → ((base c : ℕ) → elem c (derived_of base) ≡ true → rank c < rank base)
      → (derived fuel base : ℕ) → rank base < fuel
      → Known (generation_distance_internal r derived fuel base) (Derives derived base)
  unfolding generation_distance_internal
  internal_tells rank acyclic derived zero base h = absurd (omega arith)
  internal_tells rank acyclic derived (suc fuel) base h =
      let (o, e, t) =
        listed_tells derived (generation_distance_internal r derived fuel)
          (find base r.base_to_derived)
          (λ c m. internal_tells rank acyclic derived fuel c (below c m)) in
      (o, e, Tells-iff o Reaches-Derives Derives-Reaches t)
    where
      below : (c : ℕ) → elem c (derived_of base) ≡ true → rank c < fuel
      below c m = let less = acyclic base c m in omega arith
