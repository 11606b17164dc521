-- ===== src/Registry.antt =====
-- aether/obj/registry.h and .cpp, and the choice of a factory in aether/obj/domain.cpp. The unordered
-- maps are lists of pairs, in the order in which they are iterated; `std::sort` is a parameter. A
-- distance of -1 is `none`.
pub mod Distance
pub mod Entries
pub mod Classes
pub mod Chains
pub mod Choice
mod Tests
use aether_client_cpp_new.Prelude.{
  ℕ, zero, suc, ◌+◌, ◌<◌, Bool, true, false, not, ◌&&◌, ◌||◌, Option, none, some, List, [], ◌∷◌,
  ◌++◌, ltb, ◌==◌, if◌then◌else◌,
}
use aether_client_cpp_new.FileSystem.{find}
use aether_client_cpp_new.FileSystem.Maps.{is_some}

-- `Registry`, and the static maps that it copies when it is made
pub record Registry (Factory : Type 0) : Type 0 where
  pub base_to_derived : List (ℕ × List ℕ)
  pub factories : List (ℕ × Factory)

-- a class pushed back to those of its base, which `operator[]` makes if it is not there
unfoldable pub push_derived : ℕ → ℕ → List (ℕ × List ℕ) → List (ℕ × List ℕ)
push_derived base cls [] = (base, cls ∷ []) ∷ []
push_derived base cls ((b, cs) ∷ m) =
    let more = push_derived base cls m in
    if b == base then (b, cs ++ cls ∷ []) ∷ m else (b, cs) ∷ more

-- `std::remove` and `erase` of a class
unfoldable pub remove_class : ℕ → List ℕ → List ℕ
remove_class cls [] = []
remove_class cls (c ∷ cs) = let more = remove_class cls cs in if c == cls then more else c ∷ more

-- the loop of `UnregisterClass`, which drops the bases that have no class left
unfoldable pub remove_derived : ℕ → List (ℕ × List ℕ) → List (ℕ × List ℕ)
remove_derived cls [] = []
remove_derived cls ((b, cs) ∷ m) =
    let more = remove_derived cls m in
    elim (remove_class cls cs) [ [] ↦ more | c ∷ rest ↦ (b, c ∷ rest) ∷ more ]

-- `erase` of a key, which is there at most once
unfoldable pub erase_key {ℓ} : {V : Type ℓ} → ℕ → List (ℕ × V) → List (ℕ × V)
erase_key key [] = []
erase_key key ((k, v) ∷ m) = let more = erase_key key m in if k == key then m else (k, v) ∷ more

-- the loop of `GenerationDistanceInternal`
unfoldable pub distance_among : (ℕ → Option (Option ℕ)) → ℕ → List ℕ → Option (Option ℕ)
distance_among distance derived [] = some none
distance_among distance derived (c ∷ cs) =
    let later = distance_among distance derived cs in
    let deeper : Option (Option ℕ) = elim (distance c) [
      | none ↦ none
      | some none ↦ later
      | some (some d) ↦ some (some (d + 1))
    ] in
    if derived == c then some (some 1) else deeper

-- whether a distance is at least 0, and more than 0
abbrev pub at_least_0 : Option (Option ℕ) → Bool
at_least_0 (some (some d)) = true
at_least_0 _ = false

abbrev pub above_0 : Option (Option ℕ) → Bool
above_0 (some (some d)) = ltb 0 d
above_0 _ = false

-- `back` of a vector
unfoldable pub back : List ℕ → Option ℕ
back [] = none
back (c ∷ []) = some c
back (c ∷ (d ∷ cs)) = back (d ∷ cs)

module _ {F : Type 0} where
  -- `RegisterClass` on the static maps, with the id of `Obj`
  unfoldable pub register_class : ℕ → ℕ → ℕ → F → Registry F → Registry F
  register_class obj_id cls base factory r = record {
    base_to_derived =
        if base == obj_id then r.base_to_derived else push_derived base cls r.base_to_derived;
    factories =
        if is_some (find cls r.factories) then r.factories else r.factories ++ (cls, factory) ∷ [];
  }

  -- `UnregisterClass` on the copy that a registry has of them
  unfoldable pub unregister_class : ℕ → Registry F → Registry F
  unregister_class cls r = record {
    base_to_derived = remove_derived cls (erase_key cls r.base_to_derived);
    factories = erase_key cls r.factories;
  }

  -- `IsExisting`
  unfoldable pub is_existing : Registry F → ℕ → Bool
  is_existing r cls = is_some (find cls r.factories)

  -- `GenerationDistanceInternal`; the fuel bounds the generations, `none` if it is used up
  unfoldable pub generation_distance_internal : Registry F → ℕ → ℕ → ℕ → Option (Option ℕ)
  generation_distance_internal r derived zero base = none
  generation_distance_internal r derived (suc fuel) base = elim (find base r.base_to_derived) [
    | none ↦ some none
    | some cs ↦ distance_among (generation_distance_internal r derived fuel) derived cs
  ]

  -- `GenerationDistance`
  unfoldable pub generation_distance : Registry F → ℕ → ℕ → ℕ → Option (Option ℕ)
  generation_distance r fuel base derived =
      if not (is_existing r base) || not (is_existing r derived)
      then some none
      else (if base == derived
          then some (some 0)
          else generation_distance_internal r derived fuel base)

  -- `IsLast`
  unfoldable pub is_last : Registry F → ℕ → Bool
  is_last r cls = not (is_some (find cls r.base_to_derived))

  -- the classes that are supported
  unfoldable pub supported : Registry F → List ℕ → List ℕ
  supported r [] = []
  supported r (c ∷ cs) = let more = supported r cs in if is_existing r c then c ∷ more else more

  -- the comparison of `GetMostRelatedFactory`
  unfoldable pub precedes : Registry F → ℕ → ℕ → ℕ → Bool
  precedes r fuel left right =
      if above_0 (generation_distance r fuel right left)
      then false
      else at_least_0 (generation_distance r fuel left right)

  -- the last loop of `GetMostRelatedFactory`
  unfoldable pub final_factory : Registry F → ℕ → ℕ → List (ℕ × F) → Option (ℕ × F)
  final_factory r fuel most_derived [] = none
  final_factory r fuel most_derived ((cls, factory) ∷ more) =
      let later = final_factory r fuel most_derived more in
      if is_last r cls && at_least_0 (generation_distance r fuel most_derived cls)
      then some (cls, factory)
      else later

  -- what follows in `GetMostRelatedFactory` once the classes that are not supported are removed
  unfoldable pub most_related :
      ((ℕ → ℕ → Bool) → List ℕ → List ℕ) → Registry F → ℕ → List ℕ → Option (ℕ × F)
  most_related sort r fuel [] = none
  most_related sort r fuel (c ∷ cs) = elim (back (sort (precedes r fuel) (c ∷ cs))) [
    | none ↦ none
    | some most_derived ↦ final_factory r fuel most_derived r.factories
  ]

  -- `GetMostRelatedFactory` on the classes that `Enumerate` returns
  unfoldable pub get_most_related_factory :
      ((ℕ → ℕ → Bool) → List ℕ → List ℕ) → Registry F → ℕ → List ℕ → Option (ℕ × F)
  get_most_related_factory sort r fuel classes = most_related sort r fuel (supported r classes)
