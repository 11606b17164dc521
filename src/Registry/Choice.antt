-- ===== src/Registry/Choice.antt =====
-- Which factory the last loop of `GetMostRelatedFactory` of aether/obj/domain.cpp chooses.
use aether_client_cpp_new.Prelude.{
  ℕ, ◌≡◌, refl, arith, true, false, ◌&&◌, some, List, [], ◌∷◌, ◌==◌, Bool-cases, inl, inr,
}
use aether_client_cpp_new.FileSystem.{find}
use aether_client_cpp_new.FileSystem.Maps.{is_some}
use aether_client_cpp_new.Registry.{
  Registry, generation_distance, is_existing, is_last, at_least_0, final_factory,
}
use aether_client_cpp_new.Registry.Chains.{Extends, WellFounded, final_below, distances}

module _ {F : Type 0} (r : Registry F) (rank : ℕ → ℕ) (fuel : ℕ)
    (ok : WellFounded r rank fuel) where
  first_factory :
      (most_derived d : ℕ) (fs : List (ℕ × F))
      → is_some (find d fs) ≡ true
      → (is_last r d && at_least_0 (generation_distance r fuel most_derived d)) ≡ true
      → (cls : ℕ) × (factory : F) × (final_factory r fuel most_derived fs ≡ some (cls, factory))
        × (find cls fs ≡ some factory)
        × ((is_last r cls && at_least_0 (generation_distance r fuel most_derived cls)) ≡ true)
  unfolding final_factory find
  first_factory most_derived d [] h e = absurd (cc)
  first_factory most_derived d ((k, f) ∷ fs) h e =
      elim (Bool-cases (is_last r k && at_least_0 (generation_distance r fuel most_derived k))) [
        | inl g ↦ (k, f, rw g refl, ground arith, g)
        | inr g ↦ elim (Bool-cases (k == d)) [
          | inl same ↦
              let eq : k ≡ d = ground (arith, same) in absurd (ground (arith, rw eq at g, e))
          | inr other ↦
              let (cls, factory, out, there, good) =
                first_factory most_derived d fs (rw other at h) e in
              (cls, factory, rw g out, there_later cls there good g, good)
        ]
      ]
    where
      there_later :
          (cls : ℕ) {factory : F}
          → find cls fs ≡ some factory
          → (is_last r cls && at_least_0 (generation_distance r fuel most_derived cls)) ≡ true
          → (is_last r k && at_least_0 (generation_distance r fuel most_derived k)) ≡ false
          → find cls ((k, f) ∷ fs) ≡ some factory
      there_later cls there good g = elim (Bool-cases (k == cls)) [
        | inl same ↦
            let eq : k ≡ cls = ground (arith, same) in absurd (ground (arith, rw eq at g, good))
        | inr other ↦ rw other there
      ]

  -- Let each class that is listed under a base be registered and have a rank below that of the base, all
  -- ranks be below the fuel, and each base that is not final have a class listed. Then, for any
  -- registered class, the last loop of `GetMostRelatedFactory` finds a factory: that of a registered
  -- class that is final, and that is the given one or derives from it.
  pub final_factory-finds :
      (most_derived : ℕ)
      → is_existing r most_derived ≡ true
      → (cls : ℕ) × (factory : F) × (final_factory r fuel most_derived r.factories
          ≡ some (cls, factory))
        × (find cls r.factories ≡ some factory)
        × (is_last r cls ≡ true)
        × Extends r cls most_derived
  unfolding is_existing
  final_factory-finds c e =
      let (d, e', final, below) = final_below r rank fuel ok fuel c (ok.bounded c) e in
      let (cls, factory, out, reg, good) =
        first_factory c d r.factories e' (chosen d e' final below) in
      (
        cls,
        factory,
        out,
        reg,
        ground (arith, good),
        extends cls (rw reg refl) (ground (arith, good)),
      )
    where
      chosen :
          (d : ℕ)
          → is_existing r d ≡ true
          → is_last r d ≡ true
          → Extends r d c
          → (is_last r d && at_least_0 (generation_distance r fuel c d)) ≡ true
      chosen d e' final below = elim (distances r rank fuel ok c d e e') [
        | inl (a, _, _) ↦ rw (final, a) refl
        | inr (_, _, miss) ↦ absurd (miss below)
      ]

      extends :
          (cls : ℕ)
          → is_existing r cls ≡ true
          → at_least_0 (generation_distance r fuel c cls) ≡ true
          → Extends r cls c
      extends cls e' a = elim (distances r rank fuel ok c cls e e') [
        | inl (_, ext, _) ↦ ext
        | inr (b, _, _) ↦ absurd (cc)
      ]
