-- ===== src/Registry/Tests.antt =====
-- Tests of the registry, and the theorems at concrete inputs.
use aether_client_cpp_new.Prelude.{
  ℕ, ◌≡◌, refl, arith, true, false, some, List, [], ◌∷◌, ◌==◌, if◌then◌else◌, Bool-cases, inl, inr,
}
use aether_client_cpp_new.FileSystem.{find}
use aether_client_cpp_new.Ptr.Members.{elem}
use aether_client_cpp_new.Registry.{
  Registry, register_class, unregister_class, push_derived, remove_class, remove_derived, erase_key,
  generation_distance, generation_distance_internal, distance_among, is_existing, is_last,
  supported, precedes, back, final_factory, most_related, get_most_related_factory,
}
use aether_client_cpp_new.Registry.Distance.{derived_of}
use aether_client_cpp_new.Registry.Classes.{
  Event, registers, constructs, unregisters, run, empty, run-IsComplete,
}
use aether_client_cpp_new.Registry.Chains.{Extends, WellFounded}
use aether_client_cpp_new.Registry.Choice.{final_factory-finds}

-- `Obj` is 0; 2 derives from 1, and 3 from 2
abbrev events : List (Event ℕ)
events =
    registers 2 1 20
    ∷ registers 1 0 10
    ∷ registers 4 1 40
    ∷ registers 3 2 30
    ∷ constructs
    ∷ unregisters 4
    ∷ []

abbrev classes_of_events : Registry ℕ
classes_of_events = run 0 events empty empty

abbrev animals : Registry ℕ
animals = record {
  base_to_derived = (1, 2 ∷ []) ∷ (2, 3 ∷ []) ∷ [];
  factories = (2, 20) ∷ (1, 10) ∷ (3, 30) ∷ [];
}

events_make_animals : classes_of_events ≡ animals
unfolding register_class unregister_class push_derived remove_class remove_derived erase_key find
events_make_animals = refl

distance_of_3 : generation_distance animals 4 1 3 ≡ some (some 2)
unfolding generation_distance generation_distance_internal distance_among is_existing find
distance_of_3 = refl

run-IsComplete_example :
    ((c : ℕ)
      → elem c (derived_of classes_of_events 1) ≡ true
      → is_existing classes_of_events c ≡ true)
    × (is_last classes_of_events 1 ≡ false
        → (c : ℕ) × (elem c (derived_of classes_of_events 1) ≡ true))
run-IsComplete_example = run-IsComplete 0 events 1

abbrev rank : ℕ → ℕ
rank c = if c == 1 then 2 else (if c == 2 then 1 else 0)

animals-WellFounded : WellFounded animals rank 4
unfolding find is_existing is_last
animals-WellFounded = record {
  acyclic = λ base c h. ground (arith, h);
  bounded = λ c. ground arith;
  exists = λ base c h. ground (arith, h);
  non_empty = λ base h. elim (Bool-cases (1 == base)) [
    | inl e ↦ (2, ground (arith, e))
    | inr e ↦ (3, ground (arith, e, h))
  ];
}

-- a class precedes itself
one_precedes_one : precedes animals 4 1 1 ≡ true
unfolding precedes generation_distance is_existing find
one_precedes_one = refl

-- the choice among two stored classes, sorted from base to derived
chosen_factory :
    get_most_related_factory (λ before cs. 1 ∷ 2 ∷ []) animals 4 (2 ∷ 1 ∷ 9 ∷ []) ≡ some (3, 30)
unfolding get_most_related_factory most_related supported back final_factory is_last
    generation_distance generation_distance_internal distance_among is_existing find
chosen_factory = refl

one_exists : is_existing animals 1 ≡ true
unfolding is_existing find
one_exists = refl

final_factory-finds_example :
    (cls : ℕ) × (factory : ℕ) × (final_factory animals 4 1 animals.factories ≡ some (cls, factory))
    × (find cls animals.factories ≡ some factory)
    × (is_last animals cls ≡ true)
    × Extends animals cls 1
final_factory-finds_example = final_factory-finds animals rank 4 animals-WellFounded 1 one_exists
