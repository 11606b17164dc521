-- ===== src/FileSystem.antt =====
-- aether/port/file_systems/file_system_ram.h and .cpp: the objects' data in memory, by object, class
-- and version. A `std::map` is the list of its pairs with the keys ascending. An object's id is the
-- number that it holds. Logging is left out.
pub mod Maps
pub mod Stored
pub mod Listing
mod Tests
use aether_client_cpp_new.Prelude.{ℕ, Option, none, some, List, [], ◌∷◌, ltb, ◌==◌, if◌then◌else◌}

abbrev pub Map {ℓ} : Type ℓ → Type ℓ
Map V = List (ℕ × V)

-- `find` on a map
unfoldable pub find {ℓ} : {V : Type ℓ} → ℕ → Map V → Option V
find key [] = none
find key ((k, v) ∷ m) = if k == key then some v else find key m

abbrev pub or_empty {ℓ} : {V : Type ℓ} → Option (Map V) → Map V
or_empty none = []
or_empty (some m) = m

-- the value that `operator[]` refers to, which it makes empty if the key is not there
unfoldable pub at {ℓ} : {V : Type ℓ} → ℕ → Map (Map V) → Map V
unfolding find
at key m = or_empty (find key m)

-- an assignment to `operator[]`
unfoldable pub assign {ℓ} : {V : Type ℓ} → ℕ → V → Map V → Map V
assign key v [] = (key, v) ∷ []
assign key v ((k, w) ∷ m) =
    let more = assign key v m in
    if k == key
    then (key, v) ∷ m
    else (if ltb key k then (key, v) ∷ ((k, w) ∷ m) else (k, w) ∷ more)

-- `erase`
unfoldable pub erase {ℓ} : {V : Type ℓ} → ℕ → Map V → Map V
erase key [] = []
erase key ((k, v) ∷ m) = let more = erase key m in if k == key then more else (k, v) ∷ more

abbrev pub VersionData : Type 0
VersionData = Map (List ℕ)

abbrev pub ClassData : Type 0
ClassData = Map VersionData

abbrev pub ObjClassData : Type 0
ObjClassData = Map ClassData

unfoldable pub keys {ℓ} : {V : Type ℓ} → Map V → List ℕ
keys [] = []
keys ((k, v) ∷ m) = k ∷ keys m

-- `Enumerate`
unfoldable pub enumerate : ObjClassData → ℕ → List ℕ
unfolding find keys
enumerate state obj_id = elim (find obj_id state) [ none ↦ [] | some classes ↦ keys classes ]

-- `Store`
unfoldable pub store : ObjClassData → ℕ → ℕ → ℕ → List ℕ → ObjClassData
unfolding at assign
store state obj_id class_id version os =
    let classes = at obj_id state in
    let versions = at class_id classes in
    assign obj_id (assign class_id (assign version os versions) classes) state

abbrev pub value_or : List ℕ → Option (List ℕ) → List ℕ
value_or is none = is
value_or is (some bytes) = bytes

-- `Load`: what stands in `is` afterwards
unfoldable pub load : ObjClassData → ℕ → ℕ → ℕ → List ℕ → List ℕ
unfolding find
load state obj_id class_id version is = elim (find obj_id state) [
  | none ↦ is
  | some classes ↦ elim (find class_id classes) [
    | none ↦ is
    | some versions ↦ value_or is (find version versions)
  ]
]

-- `Remove`
unfoldable pub remove : ObjClassData → ℕ → ObjClassData
unfolding find erase
remove state obj_id = elim (find obj_id state) [ none ↦ state | some classes ↦ erase obj_id state ]

-- `remove_all`
unfoldable pub remove_all : ObjClassData → ObjClassData
remove_all state = []
