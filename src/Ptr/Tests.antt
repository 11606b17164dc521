-- ===== src/Ptr/Tests.antt =====
-- Two objects that point to each other, with a pointer from outside.
use aether_client_cpp_new.Prelude.{
  ℕ, ◌+◌, ◌≡◌, refl, arith, Bool, true, false, some, List, [], ◌∷◌, ◌==◌, if◌then◌else◌, Bool-cases,
  ◌⊎◌, inl, inr,
}
use aether_client_cpp_new.FileSystem.{find, assign}
use aether_client_cpp_new.Ptr.{
  Heap, Object, get, try_emplace, change, count_reference, visit_pointer, visit_fields,
  visit_object, scan, is_reachable, lets_delete, safe_to_delete, reference_graph, decrement_graph,
  delete_at_zero, reset,
}
use aether_client_cpp_new.Ptr.Members.{elem}
use aether_client_cpp_new.Ptr.Visits.{references, IsClosed}
use aether_client_cpp_new.Ptr.Safety.{Reaches, here, step}
use aether_client_cpp_new.Ptr.Resets.{reset-ends, reset_deletes_unreachable}

-- An object with one pointer, `count` pointers to it, and the place of its pointer behind its own.
abbrev one_pointer : ℕ → ℕ → ℕ → ℕ → Object
one_pointer address offset target count = record {
  type_index = 3;
  ref_counter = count;
  fields = record { address = address + offset; type_index = 1; pointer = some target } ∷ [];
}

abbrev nothing : Object
nothing = record { type_index = 0; ref_counter = 0; fields = [] }

abbrev cycle : ℕ → ℕ → Heap
cycle offset count a =
    if a == 100
    then one_pointer 100 offset 200 2
    else (if a == 200 then one_pointer 200 offset 100 count else nothing)

abbrev both : List ℕ
both = 100 ∷ 200 ∷ []

abbrev outside : ℕ → ℕ
outside a = if a == 100 then 1 else 0

cycle_deleted : reset (cycle 8 1) 3 100 ≡ some (0, true)
unfolding reset delete_at_zero decrement_graph reference_graph safe_to_delete lets_delete
    is_reachable scan visit_object visit_fields visit_pointer count_reference change try_emplace get
    find assign
cycle_deleted = refl

-- The other object is held from outside too.
cycle_held : reset (cycle 8 2) 3 100 ≡ some (1, false)
unfolding reset delete_at_zero decrement_graph reference_graph safe_to_delete lets_delete
    is_reachable scan visit_object visit_fields visit_pointer count_reference change try_emplace get
    find assign
cycle_held = refl

-- The entry of a pointer 2 behind its object, whose type's index is 2 less, is taken for the object's:
-- the pointer is not followed and the cycle is kept.
cycle_leaked : reset (cycle 2 1) 3 100 ≡ some (1, false)
unfolding reset delete_at_zero decrement_graph reference_graph safe_to_delete lets_delete
    is_reachable scan visit_object visit_fields visit_pointer count_reference change try_emplace get
    find assign
cycle_leaked = refl

both-cases : (a : ℕ) → elem a both ≡ true → ((a ≡ 100) ⊎ (a ≡ 200))
both-cases a e = elim (Bool-cases (100 == a)) [
  | inl f ↦ inl (ground (arith, f))
  | inr f ↦ elim (Bool-cases (200 == a)) [
    | inl g ↦ inr (ground (arith, g))
    | inr g ↦ absurd (ground (arith, e, f, g))
  ]
]

cycle-IsClosed : IsClosed (cycle 8 1) both
unfolding get
cycle-IsClosed a e = elim (both-cases a e) [ inl f ↦ rw f (refl, tt) | inr f ↦ rw f (refl, tt) ]

cycle_exact :
    (a : ℕ)
    → elem a both ≡ true
    → (cycle 8 1 a).ref_counter ≡ outside a + references (cycle 8 1) both a
unfolding get
cycle_exact a e = elim (both-cases a e) [ inl f ↦ rw f refl | inr f ↦ rw f refl ]

reset-ends_example :
    (deleted : Bool) × (reset (cycle 8 1) 3 100 ≡ some (if deleted then 0 else 1, deleted))
reset-ends_example =
    reset-ends (cycle 8 1) both cycle-IsClosed 3 100 refl (omega arith) outside cycle_exact
      (omega arith)

other-Reaches : Reaches (cycle 8 1) 100 200
unfolding get
other-Reaches = step 100 refl (here refl)

reset_deletes_unreachable_example : outside 200 ≡ (if 200 == 100 then 1 else 0)
reset_deletes_unreachable_example =
    reset_deletes_unreachable (cycle 8 1) both cycle-IsClosed 3 100 refl (omega arith) outside
      cycle_exact (omega arith) 0 cycle_deleted 200 refl other-Reaches
