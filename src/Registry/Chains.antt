-- ===== src/Registry/Chains.antt =====
-- Which of two classes of aether/obj/registry.cpp extends the other, by their distance.
use aether_client_cpp_new.Prelude.{
  ℕ, zero, suc, ◌<◌, ◌≡◌, refl, ap, arith, true, false, Option, none, some, ◌==◌, Bool-cases, ◌⊎◌,
  ◌↔◌, inl, inr, if◌then◌else◌,
}
use aether_client_cpp_new.Ptr.Members.{elem}
use aether_client_cpp_new.Registry.{
  Registry, generation_distance, is_existing, is_last, at_least_0, above_0, precedes,
}
use aether_client_cpp_new.Registry.Distance.{
  Tells, derived_of, Derives, Derives-trans, internal_tells, directly, through,
}

module _ {F : Type 0} (r : Registry F) where
  -- a class is another one or derives from it
  abbrev pub Extends : ℕ → ℕ → Type 0
  Extends c base = (c ≡ base) ⊎ Derives r c base

  pub Extends-trans : (c b a : ℕ) → Extends c b → Extends b a → Extends c a
  Extends-trans c b a (inl e) h = rw e h
  Extends-trans c b a (inr d) (inl e) = inr (rw e at d)
  Extends-trans c b a (inr d) (inr e) = inr (Derives-trans r c b d e)

  -- The classes of a registry have ranks, which fall from a base to the classes that derive from it; those
  -- classes exist, and no list of them is empty.
  pub record WellFounded (rank : ℕ → ℕ) (fuel : ℕ) : Type 0 where
    pub acyclic : (base c : ℕ) → elem c (derived_of r base) ≡ true → rank c < rank base
    pub bounded : (c : ℕ) → rank c < fuel
    pub exists : (base c : ℕ) → elem c (derived_of r base) ≡ true → is_existing r c ≡ true
    pub non_empty :
        (base : ℕ) → is_last r base ≡ false → (c : ℕ) × (elem c (derived_of r base) ≡ true)

  module _ (rank : ℕ → ℕ) (fuel : ℕ) (ok : WellFounded rank fuel) where
    -- a final class below each class that exists
    pub final_below :
        (n c : ℕ)
        → rank c < n
        → is_existing r c ≡ true
        → (d : ℕ) × (is_existing r d ≡ true) × (is_last r d ≡ true) × Extends d c
    final_below zero c h e = absurd (omega arith)
    final_below (suc n) c h e = elim (Bool-cases (is_last r c)) [
      | inl last ↦ (c, e, last, inl refl)
      | inr more ↦
          let (x, m) = ok.non_empty c more in
          let less = ok.acyclic c x m in
          let (d, e', last, ext) = final_below n x (omega arith) (ok.exists c x m) in
          (d, e', last, Extends-trans d x c ext (inr (directly m)))
    ]

    -- what the distance of a class that exists to another one is
    abbrev pub Distances : ℕ → ℕ → Option (Option ℕ) → Type 0
    Distances base c o =
        ((at_least_0 o ≡ true) × Extends c base × ((above_0 o ≡ true) → Derives r c base))
        ⊎ ((at_least_0 o ≡ false) × (above_0 o ≡ false) × (Extends c base → ⊥))

    pub distances :
        (base c : ℕ)
        → is_existing r base ≡ true
        → is_existing r c ≡ true
        → Distances base c (generation_distance r fuel base c)
    unfolding generation_distance
    distances base c e e' = elim (Bool-cases (base == c)) [
      | inl same ↦ rw (e, e', same) (inl (refl, inl (ground (arith, same)), λ f. absurd (cc)))
      | inr other ↦
          let (o, eq, t) = internal_tells r rank ok.acyclic c fuel base (ok.bounded base) in
          rw (e, e', other, eq) (told o t (ground (arith, other)))
    ]
      where
        told :
            (o : Option ℕ) → Tells o (Derives r c base) → (c ≡ base → ⊥) → Distances base c (some o)
        told none t n = inr (refl, refl, λ h. elim h [ inl s ↦ n s | inr d ↦ t d ])
        told (some d) (h, p) n = inl (refl, inr p, λ f. p)

    -- a class does not derive from another one that extends it
    Derives-rank : {c base : ℕ} → Derives r c base → rank c < rank base
    Derives-rank {c} {base} (directly e) = ok.acyclic base c e
    Derives-rank {c} {base} (through x e more) =
        let less = ok.acyclic base x e in let below = Derives-rank more in omega arith

    -- The comparison that is given to `std::sort` holds of two registered classes exactly if the second
    -- one is the first one or derives from it: it holds of a class and itself.
    pub precedes-Extends :
        (left right : ℕ)
        → is_existing r left ≡ true
        → is_existing r right ≡ true
        → (precedes r fuel left right ≡ true) ↔ Extends right left
    unfolding precedes
    precedes-Extends left right e e' = elim (distances right left e' e) [
      | inl (_, _, above) ↦ elim (Bool-cases (above_0 (generation_distance r fuel right left))) [
        | inl a ↦ (λ h. absurd (ground (arith, a, h)), λ ext. absurd (clash ext (above a)))
        | inr a ↦ by_second a
      ]
      | inr (_, a, _) ↦ by_second a
    ]
      where
        clash : Extends right left → Derives r left right → ⊥
        clash (inl same) d = let less = Derives-rank d in omega (arith, ap rank same)
        clash (inr d') d = let less = Derives-rank d in let less' = Derives-rank d' in omega arith

        by_second :
            above_0 (generation_distance r fuel right left) ≡ false
            → ((if above_0 (generation_distance r fuel right left)
                  then false
                  else at_least_0 (generation_distance r fuel left right))
                ≡ true)
              ↔ Extends right left
        by_second a = elim (distances left right e e') [
          | inl (b, ext, _) ↦ (λ h. ext, λ _. rw (a, b) refl)
          | inr (b, _, miss) ↦ (λ h. absurd (ground (arith, a, b, h)), λ ext. absurd (miss ext))
        ]
