-- ===== src/Ptr/Resets.antt =====
-- `Reset` of aether/obj/ptr.h ends, and what it deletes was held by the pointer alone.
use aether_client_cpp_new.Prelude.{
  ℕ, ◌+◌, ◌-◌, ◌≤◌, ◌<◌, ◌≡◌, refl, subst, ap, ◌∙◌, arith, Bool, true, false, Option, some, List,
  [], ◌∷◌, ◌==◌, if◌then◌else◌, Bool-cases, inl, inr, length,
}
use aether_client_cpp_new.Ptr.{Heap, decrement_graph, delete_at_zero, reset}
use aether_client_cpp_new.Ptr.Members.{elem, All-elem}
use aether_client_cpp_new.Ptr.Visits.{targets_of, references, IsClosed}
use aether_client_cpp_new.Ptr.Safety.{Reaches, here, step, references-le, occurrences-pos}
use aether_client_cpp_new.Ptr.Graph.{visit, loop}
use aether_client_cpp_new.Ptr.Deletion.{all_Tight}

module _ (h : Heap) (objects : List ℕ) (inside : IsClosed h objects) (fuel ptr : ℕ)
    (member : elem ptr objects ≡ true) (enough : length objects < fuel) (outside : ℕ → ℕ)
    (exact : (a : ℕ)
      → elem a objects ≡ true
      → (h a).ref_counter ≡ outside a + references h objects a)
    (held : 1 ≤ outside ptr) where
  safe : Bool
  safe = (loop h objects inside fuel ptr member enough).safe

  graph_lem : decrement_graph h fuel ptr ≡ some (if safe then 0 else (h ptr).ref_counter - 1)
  unfolding decrement_graph safe
  graph_lem =
      let ends = loop h objects inside fuel ptr member enough in
      let graph = (visit h objects inside fuel ptr member enough).0.result in
      rw (graph, decrement_graph) (rw ends.result (at ends.safe))
    where
      at :
          (b : Bool)
          → elim b as (λ x. Option ℕ) [ true ↦ some 0 | false ↦ some ((h ptr).ref_counter - 1) ]
            ≡ some (if b then 0 else (h ptr).ref_counter - 1)
      at true = refl
      at false = refl

  -- the object is deleted where its last pointer is reset or the graph lets it
  deletes : Bool
  deletes = if (h ptr).ref_counter == 1 then true else safe

  reset_result : reset h fuel ptr ≡ some (if deletes then 0 else (h ptr).ref_counter - 1, deletes)
  unfolding reset deletes
  reset_result =
      let some_held : ((h ptr).ref_counter == 0) ≡ false = ground (arith, exact ptr member) in
      rw some_held (elim (Bool-cases ((h ptr).ref_counter == 1)) [
        | inl e ↦ rw e (unfold delete_at_zero in refl)
        | inr e ↦ rw e (
            rw graph_lem (elim (Bool-cases safe) [
              | inl f ↦ rw f (unfold delete_at_zero in refl)
              | inr f ↦
                  let left : ((h ptr).ref_counter - 1 == 0) ≡ false =
                    ground (arith, exact ptr member, e, some_held) in
                  rw f (unfold delete_at_zero in ap (λ b. some ((h ptr).ref_counter - 1, b)) left)
            ]))
      ])

  -- With more fuel than objects, `Reset` ends, and leaves a counter of 0 where it deletes the object
  -- and one less than before where it does not. The pointers of the objects have objects among them,
  -- the counters are those of the pointers in objects and outside, and the pointer itself is outside.
  pub reset-ends :
      (deleted : Bool) × (reset h fuel ptr
        ≡ some (if deleted then 0 else (h ptr).ref_counter - 1, deleted))
  reset-ends = (deletes, reset_result)

  -- the only pointer to an object is no pointer of an object
  single : (h ptr).ref_counter ≡ 1 → (z : ℕ) → elem z objects ≡ true → Reaches h ptr z → z ≡ ptr
  single one z m (here e) = e
  single one z m (step y e more) =
      let y_member = All-elem _ y (targets_of h z) (inside z m) e in
      let it : y ≡ ptr = single one y y_member more in
      let e' : elem ptr (targets_of h z) ≡ true =
        subst (λ (x : ℕ). elem x (targets_of h z) ≡ true) it e in
      let counted = references-le h (z ∷ []) objects ptr (refl, tt) (m, tt) in
      absurd (
        omega
          (arith, counted, occurrences-pos ptr (targets_of h z) e', exact ptr member, one, held))

  -- If `Reset` deletes the object, the pointer that is reset was the only one outside the objects to
  -- any object from which the pointers lead to it: nothing outside can still reach it. This holds for
  -- objects that form cycles too, and whatever entries the `CycleDetector` takes for the same.
  pub reset_deletes_unreachable :
      (n : ℕ)
      → reset h fuel ptr ≡ some (n, true)
      → (z : ℕ) → elem z objects ≡ true
      → Reaches h ptr z
      → outside z ≡ (if z == ptr then 1 else 0)
  unfolding deletes
  reset_deletes_unreachable n e z m r = elim (Bool-cases ((h ptr).ref_counter == 1)) [
    | inl f ↦
        let one : (h ptr).ref_counter ≡ 1 = ground (arith, f) in
        let it : z ≡ ptr = single one z m r in
        let self : (z == ptr) ≡ true = ground (arith, it) in
        let alone : outside ptr ≡ 1 = omega (arith, exact ptr member, one, held) in
        rw self (ap outside it ∙ alone)
    | inr f ↦
        let lets : safe ≡ true = ground (arith, e, reset_result, f) in
        (all_Tight h objects inside fuel ptr member enough outside exact held (unfold safe in lets)
          z m r).alone
  ]
