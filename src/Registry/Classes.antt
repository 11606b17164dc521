-- ===== src/Registry/Classes.antt =====
-- The classes that aether/obj/registry.cpp keeps as they are registered and unregistered.
use aether_client_cpp_new.Prelude.{
  ℕ, ◌≡◌, refl, ap, ◌∙◌, arith, true, false, not, Option, none, some, List, [], ◌∷◌, All, ◌==◌,
  Bool-cases, ◌⊎◌, inl, inr,
}
use aether_client_cpp_new.FileSystem.{find}
use aether_client_cpp_new.FileSystem.Maps.{is_some}
use aether_client_cpp_new.Ptr.Members.{elem}
use aether_client_cpp_new.Registry.{
  Registry, register_class, unregister_class, is_existing, is_last,
}
use aether_client_cpp_new.Registry.Distance.{listed, derived_of}
use aether_client_cpp_new.Registry.Entries.{
  Filled, push_derived-Filled, find-Filled, erase_key-Filled, remove_derived-Filled, find-erase_key,
  find-append, Filled-map,
}

-- classes are registered in the static maps, a registry copies them, and classes are unregistered in the copy
pub data Event (F : Type 0) : Type 0 where
  registers : (cls base : ℕ) (factory : F) → Event F
  constructs : Event F
  unregisters : (cls : ℕ) → Event F

module _ {F : Type 0} where
  -- the static maps and a registry
  abbrev pub run : ℕ → List (Event F) → Registry F → Registry F → Registry F
  run obj_id [] statics r = r
  run obj_id (registers cls base factory ∷ es) statics r =
      run obj_id es (register_class obj_id cls base factory statics) r
  run obj_id (constructs ∷ es) statics r = run obj_id es statics statics
  run obj_id (unregisters cls ∷ es) statics r = run obj_id es statics (unregister_class cls r)

  abbrev pub empty : Registry F
  empty = record { base_to_derived = []; factories = [] }

  -- Each class that is listed under a base is registered, and no list is empty.
  abbrev pub IsComplete : Registry F → Type 0
  IsComplete r = All (Filled (λ c. is_existing r c ≡ true)) r.base_to_derived

  is_existing-register_class :
      (obj_id cls base : ℕ) (f : F) (r : Registry F) (c : ℕ)
      → (is_existing r c ≡ true) ⊎ (cls ≡ c)
      → is_existing (register_class obj_id cls base f r) c ≡ true
  unfolding is_existing register_class
  is_existing-register_class obj_id cls base f r c h =
      elim (Bool-cases (is_some (find cls r.factories))) [
        | inl e ↦ elim h [ inl m ↦ rw e m | inr same ↦ ground (arith, same, e) ]
        | inr e ↦ rw e (
            find-append c cls f r.factories
            ∙ elim h [ inl m ↦ rw m refl | inr same ↦ ground (arith, same) ])
      ]

  register_class-IsComplete :
      (obj_id cls base : ℕ) (f : F) (r : Registry F)
      → IsComplete r
      → IsComplete (register_class obj_id cls base f r)
  unfolding register_class is_existing
  register_class-IsComplete obj_id cls base f r h =
      let old =
        Filled-map _ (λ c. is_existing (register_class obj_id cls base f r) c ≡ true)
          r.base_to_derived (λ c e. is_existing-register_class obj_id cls base f r c (inl e)) h in
      elim (Bool-cases (base == obj_id)) [
        | inl e ↦ rw e old
        | inr e ↦ rw e (
            push_derived-Filled _ base cls r.base_to_derived
              (is_existing-register_class obj_id cls base f r cls (inr refl)) old)
      ]

  unregister_class-IsComplete :
      (cls : ℕ) (r : Registry F) → IsComplete r → IsComplete (unregister_class cls r)
  unfolding unregister_class is_existing
  unregister_class-IsComplete cls r h =
      remove_derived-Filled _ _ cls _ (λ c n e. ap is_some (find-erase_key cls c r.factories n) ∙ e)
        (erase_key-Filled _ cls r.base_to_derived h)

  IsComplete-listed :
      (r : Registry F) (base : ℕ)
      → IsComplete r
      → ((c : ℕ) → elem c (derived_of r base) ≡ true → is_existing r c ≡ true)
        × (is_last r base ≡ false → (c : ℕ) × (elem c (derived_of r base) ≡ true))
  unfolding is_last
  IsComplete-listed r base h =
      by_entry (find base r.base_to_derived) (λ cs e. find-Filled _ base r.base_to_derived cs h e)
    where
      by_entry :
          (o : Option (List ℕ))
          → ((cs : List ℕ) → o ≡ some cs → Filled (λ c. is_existing r c ≡ true) (base, cs))
          → ((c : ℕ) → elem c (listed o) ≡ true → is_existing r c ≡ true)
            × (not (is_some o) ≡ false → (c : ℕ) × (elem c (listed o) ≡ true))
      by_entry none g = ((λ c e. absurd (cc)), λ e. absurd (cc))
      by_entry (some cs) g = let (first, all) = g cs refl in (all, λ e. first)

  -- However classes are registered, registries are made of them and classes are unregistered, in a registry
  -- each class that is listed under a base is registered, and the list of a base that is not final is not
  -- empty.
  pub run-IsComplete :
      (obj_id : ℕ) (es : List (Event F)) (base : ℕ)
      → let r = run obj_id es empty empty in
        ((c : ℕ) → elem c (derived_of r base) ≡ true → is_existing r c ≡ true)
        × (is_last r base ≡ false → (c : ℕ) × (elem c (derived_of r base) ≡ true))
  run-IsComplete obj_id es base =
      IsComplete-listed (run obj_id es empty empty) base (kept es empty empty tt tt)
    where
      kept :
          (es : List (Event F)) (statics r : Registry F)
          → IsComplete statics
          → IsComplete r
          → IsComplete (run obj_id es statics r)
      kept [] statics r g h = h
      kept (registers cls b f ∷ es) statics r g h =
          kept es (register_class obj_id cls b f statics) r
            (register_class-IsComplete obj_id cls b f statics g) h
      kept (constructs ∷ es) statics r g h = kept es statics statics g g
      kept (unregisters cls ∷ es) statics r g h =
          kept es statics (unregister_class cls r) g (unregister_class-IsComplete cls r h)
