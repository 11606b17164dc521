-- ===== src/Ptr.antt =====
-- aether/obj/ptr.h with ptr_management.h and .cpp: pointers that count references and find cycles. An
-- object is known by its address, and its pointers by theirs; a pointer is visited with the type that
-- it was made with. `reachable_ref_count` and the counters do not overflow. Maps are those of
-- FileSystem, sets are lists without repetition.
pub mod Members
mod Tests
pub mod Resets
pub mod Graph
pub mod Deletion
pub mod Safety
pub mod Reaching
pub mod Traversal
pub mod Visits
pub mod Trees
use aether_client_cpp_new.Prelude.{
  ℕ, zero, suc, ◌+◌, ◌-◌, Bool, true, false, not, Option, none, some, List, [], ◌∷◌, ltb, ◌==◌,
  if◌then◌else◌, map,
}
use aether_client_cpp_new.FileSystem.{Map, find, assign}
use aether_client_cpp_new.Ptr.Members.{elem}

-- a `Ptr` in an object: where it lies, its type, and the object that its shared pointer has
pub record Field : Type 0 where
  pub address : ℕ
  pub type_index : ℕ
  pub pointer : Option ℕ

-- an object: its type, the counter of its `PointerRefManager`, and the pointers that `Visit` shows
pub record Object : Type 0 where
  pub type_index : ℕ
  pub ref_counter : ℕ
  pub fields : List Field

-- the objects by their addresses
abbrev pub Heap : Type 0
Heap = ℕ → Object

-- `Ptr::get`
unfoldable pub get : Heap → Option ℕ → Option ℕ
get h none = none
get h (some a) = if (h a).ref_counter == 0 then none else some a

-- an entry of the `CycleDetector`: two are the same if the sums of type and address are
abbrev pub object_key : Heap → ℕ → ℕ
object_key h a = (h a).type_index + a

abbrev pub field_key : Field → ℕ
field_key f = f.type_index + f.address

-- `RefTree`, the children by the addresses of their objects
pub record RefTree : Type 0 where
  pub ref_count : ℕ
  pub reachable_ref_count : ℕ
  pub children : List ℕ

abbrev pub ObjMap : Type 0
ObjMap = Map RefTree

abbrev pub new_tree : ℕ → RefTree
new_tree ref_count = record { ref_count = ref_count; reachable_ref_count = 0; children = [] }

-- `try_emplace`
unfoldable pub try_emplace : ℕ → RefTree → ObjMap → ObjMap
try_emplace a t m = elim (find a m) [ none ↦ assign a t m | some r ↦ m ]

-- a change of an entry that a reference stands for
unfoldable pub change : ℕ → (RefTree → RefTree) → ObjMap → ObjMap
change a g m = elim (find a m) [ none ↦ m | some r ↦ assign a (g r) m ]

abbrev pub counted : RefTree → RefTree
counted r = record r { reachable_ref_count = r.reachable_ref_count + 1 }

abbrev pub insert : ℕ → List ℕ → List ℕ
insert t ts = if elem t ts then ts else t ∷ ts

abbrev pub with_child : ℕ → RefTree → RefTree
with_child t r = record r { children = insert t r.children }

-- the `CycleDetector` and the map of a visit
pub record Visit : Type 0 where
  pub visited : List ℕ
  pub obj_map : ObjMap

-- what `RefCounterVisitor` does at a pointer to `t` in the object `p`, before it goes on to `t`
unfoldable pub count_reference : Heap → ℕ → ℕ → Visit → Visit
count_reference h p t s = record s {
  obj_map =
      change p (with_child t)
        (change t counted (try_emplace t (new_tree (h t).ref_counter) s.obj_map));
}

-- `Visit` of the pointer itself, which is visited once, and then of its object
unfoldable pub visit_pointer : (ℕ → Visit → Option Visit) → ℕ → ℕ → Visit → Option Visit
visit_pointer visit_object key t s =
    if elem key s.visited then some s else visit_object t (record s { visited = key ∷ s.visited })

-- `RefCounterVisitor` at each pointer of the object `p`
unfoldable pub visit_fields :
    (ℕ → Visit → Option Visit) → Heap → ℕ → List Field → Visit → Option Visit
visit_fields visit_object h p [] s = some s
visit_fields visit_object h p (f ∷ fs) s = elim (get h f.pointer) [
  | none ↦ visit_fields visit_object h p fs s
  | some t ↦ elim (visit_pointer visit_object (field_key f) t (count_reference h p t s)) [
    | none ↦ none
    | some s' ↦ visit_fields visit_object h p fs s'
  ]
]

-- `ExplicitVisitPolicy::Visit` of an object; the fuel bounds the depth, `none` if it is used up
unfoldable pub visit_object : Heap → ℕ → ℕ → Visit → Option Visit
visit_object h zero a s = none
visit_object h (suc fuel) a s =
    let deeper =
      visit_fields (visit_object h fuel) h a (h a).fields
        (record s { visited = object_key h a ∷ s.visited }) in
    if elem (object_key h a) s.visited then some s else deeper

-- the children of an entry
abbrev pub children_in : Option RefTree → List ℕ
children_in none = []
children_in (some r) = r.children

abbrev pub children_of : ObjMap → ℕ → List ℕ
children_of m a = children_in (find a m)

-- the loop of `IsReachable`, which returns the visited entries too
unfoldable pub scan :
    (ℕ → List ℕ → Option (Bool × List ℕ)) → ℕ → List ℕ → List ℕ → Option (Bool × List ℕ)
scan is_reachable p [] visited = some (false, visited)
scan is_reachable p (c ∷ cs) visited =
    let later = scan is_reachable p cs visited in
    let deeper : Option (Bool × List ℕ) = elim (is_reachable c visited) [
      | none ↦ none
      | some (true, visited') ↦ some (true, visited')
      | some (false, visited') ↦ scan is_reachable p cs visited'
    ] in
    if c == p then some (true, visited) else (if elem c visited then later else deeper)

-- `IsReachable`
unfoldable pub is_reachable : ObjMap → ℕ → ℕ → ℕ → List ℕ → Option (Bool × List ℕ)
is_reachable m p zero a visited = none
is_reachable m p (suc fuel) a visited =
    scan (is_reachable m p fuel) p (children_of m a) (a ∷ visited)

-- one round of the loop of `DecrementGraph`: whether the entry lets the object be deleted
unfoldable pub lets_delete : ObjMap → ℕ → ℕ → ℕ → RefTree → Option Bool
lets_delete m fuel ptr o ref =
    let reaches : Option Bool = elim (is_reachable m ptr fuel o []) [
      | none ↦ none
      | some (found, visited) ↦ some (not found)
    ] in
    if o == ptr
    then some (ref.ref_count == ref.reachable_ref_count)
    else (if ltb ref.reachable_ref_count ref.ref_count then reaches else some true)

-- the loop, which stops at the first that does not
unfoldable pub safe_to_delete : ObjMap → ℕ → ℕ → ObjMap → Option Bool
safe_to_delete m fuel ptr [] = some true
safe_to_delete m fuel ptr ((o, ref) ∷ more) = elim (lets_delete m fuel ptr o ref) [
  | none ↦ none
  | some false ↦ some false
  | some true ↦ safe_to_delete m fuel ptr more
]

-- the visit of the object that the pointer has
unfoldable pub reference_graph : Heap → ℕ → ℕ → Option Visit
reference_graph h fuel ptr =
    visit_object h fuel ptr
      (record { visited = []; obj_map = (ptr, counted (new_tree (h ptr).ref_counter)) ∷ [] })

-- `DecrementGraph`, as the counter that it leaves
unfoldable pub decrement_graph : Heap → ℕ → ℕ → Option ℕ
decrement_graph h fuel ptr = elim (reference_graph h fuel ptr) [
  | none ↦ none
  | some s ↦ elim (safe_to_delete s.obj_map fuel ptr s.obj_map) [
    | none ↦ none
    | some true ↦ some 0
    | some false ↦ some ((h ptr).ref_counter - 1)
  ]
]

-- the counter and whether the object is deleted
unfoldable pub delete_at_zero : Option ℕ → Option (ℕ × Bool)
delete_at_zero none = none
delete_at_zero (some n) = some (n, n == 0)

-- `Reset` of a pointer that has the object `ptr`
unfoldable pub reset : Heap → ℕ → ℕ → Option (ℕ × Bool)
reset h fuel ptr =
    let last = delete_at_zero (some 0) in
    let others = delete_at_zero (decrement_graph h fuel ptr) in
    if (h ptr).ref_counter == 0
    then some (0, false)
    else (if (h ptr).ref_counter == 1 then last else others)
