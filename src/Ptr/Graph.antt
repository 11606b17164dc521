-- ===== src/Ptr/Graph.antt =====
-- The graph that `DecrementGraph` of aether/obj/ptr.h builds from a pointer, and its last loop.
use aether_client_cpp_new.Prelude.{
  ℕ, ◌+◌, ◌<◌, ◌≡◌, refl, sym, ap, ◌∙◌, arith, Bool, true, false, not, Option, none, some, List, [],
  ◌∷◌, All, ◌==◌, if◌then◌else◌, Bool-cases, inl, inr, length, ltb,
}
use aether_client_cpp_new.FileSystem.{find, keys}
use aether_client_cpp_new.FileSystem.Maps.{has, has-keys, is_some}
use aether_client_cpp_new.Ptr.{
  Heap, RefTree, ObjMap, Visit, new_tree, counted, children_in, children_of, is_reachable,
  lets_delete, reference_graph,
}
use aether_client_cpp_new.Ptr.Members.{elem, All-elem, All-of}
use aether_client_cpp_new.Ptr.Trees.{count_of, present, Sound, AllSound}
use aether_client_cpp_new.Ptr.Visits.{missing_none, references, IsClosed, reached, Grown, clash}
use aether_client_cpp_new.Ptr.Traversal.{Outcome, Enters-fuel}
use aether_client_cpp_new.Ptr.Reaching.{Search-ends}
use aether_client_cpp_new.Ptr.Safety.{Loop, Loop-ends}

-- what a round of the loop says, for the object itself and for another
module _ (m : ObjMap) (fuel ptr o : ℕ) (r : RefTree) where
  pub lets_self :
      (o == ptr) ≡ true → lets_delete m fuel ptr o r ≡ some (r.ref_count == r.reachable_ref_count)
  unfolding lets_delete
  lets_self e = rw (e, lets_delete) refl

  lets_small :
      (o == ptr) ≡ false
      → ltb r.reachable_ref_count r.ref_count ≡ false
      → lets_delete m fuel ptr o r ≡ some true
  unfolding lets_delete
  lets_small e f = rw (e, lets_delete) (rw f refl)

  pub lets_large :
      (found : Bool) (after : List ℕ)
      → (o == ptr) ≡ false
      → ltb r.reachable_ref_count r.ref_count ≡ true
      → is_reachable m ptr fuel o [] ≡ some (found, after)
      → lets_delete m fuel ptr o r ≡ some (not found)
  unfolding lets_delete
  lets_large found after e f g = rw (e, lets_delete) (rw f (rw g refl))

Sound-children :
    (h : Heap) (objects : List ℕ) (z : ℕ) (o : Option RefTree)
    → Sound h objects z o
    → All (λ c. elem c objects ≡ true) (children_in o)
Sound-children h objects z none s = tt
Sound-children h objects z (some r) s = s.1

pub Sound-member :
    (h : Heap) (objects : List ℕ) (z : ℕ) (o : Option RefTree)
    → Sound h objects z o
    → is_some o ≡ true
    → elem z objects ≡ true
Sound-member h objects z none s e = absurd (clash _ e refl)
Sound-member h objects z (some r) s e = s.2

is_some-cases : (o : Option RefTree) → is_some o ≡ true → (r : RefTree) × (o ≡ some r)
is_some-cases none e = absurd (clash _ e refl)
is_some-cases (some r) e = (r, refl)

has-elem : (a : ℕ) (ks : List ℕ) → has a ks ≡ elem a ks
has-elem a [] = refl
has-elem a (k ∷ ks) = ground (arith, has-elem a ks)

module _ (h : Heap) (objects : List ℕ) (inside : IsClosed h objects) (fuel ptr : ℕ)
    (member : elem ptr objects ≡ true) (enough : length objects < fuel) where
  abbrev pub start : Visit
  start = record { visited = []; obj_map = (ptr, counted (new_tree (h ptr).ref_counter)) ∷ [] }

  pub self : (ptr == ptr) ≡ true
  self = ground arith

  start-present : present start.obj_map ptr ≡ true
  unfolding find
  start-present = rw self refl

  start-count : (z : ℕ) → count_of start.obj_map z ≡ (if ptr == z then 1 else 0)
  unfolding find
  start-count z = elim (Bool-cases (ptr == z)) [ inl e ↦ rw e refl | inr e ↦ rw e refl ]

  start-AllSound : AllSound h objects start.obj_map
  unfolding find
  start-AllSound z = elim (Bool-cases (ptr == z)) [
    | inl e ↦
        let same : ptr ≡ z = ground (arith, e) in
        rw e (ap (λ a. (h a).ref_counter) same, tt, rw (← same) member)
    | inr e ↦ rw e tt
  ]

  pub visit :
      (out : Outcome h objects ptr start [] (reference_graph h fuel ptr)) × (reached h objects start
            ptr
          ≡ false
        → elem ptr out.visited_objects ≡ true)
  unfolding reference_graph
  visit =
      Enters-fuel h objects inside fuel ptr ptr start member start-present
        (omega (arith, enough, missing_none (reached h objects start) objects))

  abbrev pub after : Visit
  after = visit.0.after

  abbrev pub es : List ℕ
  es = visit.0.visited_objects

  pub grown : Grown h objects ptr start after es []
  grown = visit.0.grown

  pub all_sound : AllSound h objects after.obj_map
  all_sound = grown.sound start-AllSound

  pub within : (a : ℕ) → All (λ c. elem c objects ≡ true) (children_of after.obj_map a)
  within a = Sound-children h objects a (find a after.obj_map) (all_sound a)

  pub counted_references :
      (z : ℕ) → count_of after.obj_map z ≡ (if ptr == z then 1 else 0) + references h es z
  counted_references z = omega (arith, grown.counts z, start-count z)

  pub entry_of : (z : ℕ) → elem z es ≡ true → (r : RefTree) × (find z after.obj_map ≡ some r)
  entry_of z e = is_some-cases (find z after.obj_map) (All-elem _ z es grown.seen e).1

  pub round_ends :
      (o : ℕ) (r : RefTree)
      → elem o objects ≡ true
      → (b : Bool) × (lets_delete after.obj_map fuel ptr o r ≡ some b)
  round_ends o r m = elim (Bool-cases (o == ptr)) [
    | inl e ↦ (r.ref_count == r.reachable_ref_count, lets_self after.obj_map fuel ptr o r e)
    | inr e ↦ elim (Bool-cases (ltb r.reachable_ref_count r.ref_count)) [
      | inr f ↦ (true, lets_small after.obj_map fuel ptr o r e f)
      | inl f ↦
          let search = Search-ends after.obj_map objects ptr within fuel o m enough in
          (
            not search.found,
            lets_large after.obj_map fuel ptr o r search.found search.after e f search.result,
          )
    ]
  ]

  pub loop : Loop after.obj_map fuel ptr objects round_ends after.obj_map
  loop = Loop-ends after.obj_map fuel ptr objects round_ends after.obj_map (
      All-of _ (keys after.obj_map) (λ k e.
        Sound-member h objects k (find k after.obj_map) (all_sound k)
          (sym (has-keys k after.obj_map) ∙ has-elem k (keys after.obj_map) ∙ e)))
