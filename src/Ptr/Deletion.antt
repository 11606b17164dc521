-- ===== src/Ptr/Deletion.antt =====
-- `Reset` of aether/obj/ptr.h deletes no object that can still be reached.
use aether_client_cpp_new.Prelude.{
  ℕ, ◌+◌, ◌≤◌, ◌<◌, ◌≡◌, refl, sym, subst, ap, ◌∙◌, arith, Bool, true, false, not, some, List, [],
  ◌∷◌, All, ◌==◌, if◌then◌else◌, Bool-cases, ◌⊎◌, inl, inr, length, ltb,
}
use aether_client_cpp_new.FileSystem.{find}
use aether_client_cpp_new.FileSystem.Maps.{is_some}
use aether_client_cpp_new.Ptr.{Heap, RefTree, Visit, children_of, lets_delete}
use aether_client_cpp_new.Ptr.Members.{elem, All-elem}
use aether_client_cpp_new.Ptr.Trees.{counter_in, count_of, Sound, AllSound}
use aether_client_cpp_new.Ptr.Visits.{targets_of, references, IsClosed, Grown}
use aether_client_cpp_new.Ptr.Reaching.{Chain, last, link, Search-ends}
use aether_client_cpp_new.Ptr.Graph
use aether_client_cpp_new.Ptr.Graph.{Sound-member, lets_self, lets_large, start}
use aether_client_cpp_new.Ptr.Safety.{Reaches, here, step, references-le, occurrences-pos, Loop}

module _ (h : Heap) (objects : List ℕ) (inside : IsClosed h objects) (fuel ptr : ℕ)
    (member : elem ptr objects ≡ true) (enough : length objects < fuel) where
  abbrev after : Visit
  after = Graph.after h objects inside fuel ptr member enough

  abbrev es : List ℕ
  es = Graph.es h objects inside fuel ptr member enough

  grown : Grown h objects ptr (start h objects inside fuel ptr member enough) after es []
  grown = Graph.grown h objects inside fuel ptr member enough

  all_sound : AllSound h objects after.obj_map
  all_sound = Graph.all_sound h objects inside fuel ptr member enough

  abbrev within : (a : ℕ) → All (λ c. elem c objects ≡ true) (children_of after.obj_map a)
  within = Graph.within h objects inside fuel ptr member enough

  abbrev round_ends :
      (o : ℕ) (r : RefTree)
      → elem o objects ≡ true
      → (b : Bool) × (lets_delete after.obj_map fuel ptr o r ≡ some b)
  round_ends = Graph.round_ends h objects inside fuel ptr member enough

  abbrev loop : Loop after.obj_map fuel ptr objects round_ends after.obj_map
  loop = Graph.loop h objects inside fuel ptr member enough

  counted_references :
      (z : ℕ) → count_of after.obj_map z ≡ (if ptr == z then 1 else 0) + references h es z
  counted_references = Graph.counted_references h objects inside fuel ptr member enough

  entry_of : (z : ℕ) → elem z es ≡ true → (r : RefTree) × (find z after.obj_map ≡ some r)
  entry_of = Graph.entry_of h objects inside fuel ptr member enough

  self : (ptr == ptr) ≡ true
  self = Graph.self h objects inside fuel ptr member enough

  module _ (outside : ℕ → ℕ)
      (exact : (a : ℕ)
        → elem a objects ≡ true
        → (h a).ref_counter ≡ outside a + references h objects a)
      (held : 1 ≤ outside ptr) (safe : loop.safe ≡ true) where
    -- no object outside the visit has a pointer to it, and so many pointers outside all objects
    pub record Tight (z : ℕ) : Type 0 where
      pub followed : elem z es ≡ true
      pub tight : references h objects z ≡ references h es z
      pub alone : outside z ≡ (if z == ptr then 1 else 0)
      pub way : ((z == ptr) ≡ true) ⊎ Chain after.obj_map objects ptr within z

    visited_references : (z : ℕ) → references h es z ≤ references h objects z
    visited_references z = references-le h es objects z grown.nodup grown.inside

    count_in_entry :
        (z : ℕ) (r : RefTree)
        → find z after.obj_map ≡ some r
        → r.reachable_ref_count ≡ (if ptr == z then 1 else 0) + references h es z
    count_in_entry z r e = sym (ap counter_in e) ∙ counted_references z

    exact_entry :
        (z : ℕ) (r : RefTree)
        → find z after.obj_map ≡ some r
        → r.ref_count ≡ outside z + references h objects z
    exact_entry z r e =
        let sound = subst (λ o. Sound h objects z o) e (all_sound z) in sound.0 ∙ exact z sound.2

    Tight-self : Tight ptr
    Tight-self =
        let there = (Graph.visit h objects inside fuel ptr member enough).1 refl in
        let (r, e) = entry_of ptr there in
        let lets = loop.all_let safe ptr r e in
        let equal : r.ref_count ≡ r.reachable_ref_count =
          ground (arith, lets, lets_self after.obj_map fuel ptr ptr r self) in
        let count : r.reachable_ref_count ≡ 1 + references h es ptr =
          rw self at (count_in_entry ptr r e) in
        let one : outside ptr ≡ 1 =
          omega (arith, equal, count, exact_entry ptr r e, visited_references ptr, held) in
        record {
          followed = there;
          tight = omega (arith, equal, count, exact_entry ptr r e, one);
          alone = rw self one;
          way = inl self;
        }

    few_references :
        (z : ℕ) (r : RefTree)
        → (z == ptr) ≡ false
        → find z after.obj_map ≡ some r
        → Chain after.obj_map objects ptr within z
        → r.ref_count ≤ r.reachable_ref_count
    few_references z r e f c = elim (Bool-cases (ltb r.reachable_ref_count r.ref_count)) [
      | inr g ↦ ground (arith, g)
      | inl g ↦
          let m = Sound-member h objects z (find z after.obj_map) (all_sound z) (ap is_some f) in
          let search = Search-ends after.obj_map objects ptr within fuel z m enough in
          let large =
            lets_large after.obj_map fuel ptr z r search.found search.after e g search.result in
          absurd (not_found search.found (search.complete c) (sym large ∙ loop.all_let safe z r f))
    ]
      where
        not_found : (b : Bool) → b ≡ true → some (not b) ≡ some true → ⊥
        not_found true p q = cc
        not_found false p q = cc

    Tight-other :
        (z : ℕ)
        → (z == ptr) ≡ false
        → elem z es ≡ true
        → Chain after.obj_map objects ptr within z
        → Tight z
    Tight-other z e m c =
        let other : (ptr == z) ≡ false = ground (arith, e) in
        let (r, f) = entry_of z m in
        let count : r.reachable_ref_count ≡ 0 + references h es z =
          rw other at (count_in_entry z r f) in
        let few = few_references z r e f c in
        let none_left : outside z ≡ 0 =
          omega (arith, few, count, exact_entry z r f, visited_references z) in
        record {
          followed = m;
          tight = omega (arith, few, count, exact_entry z r f, visited_references z);
          alone = rw e none_left;
          way = inr c;
        }

    predecessor :
        (z y : ℕ)
        → elem z objects ≡ true
        → elem y (targets_of h z) ≡ true
        → references h objects y ≡ references h es y
        → elem z es ≡ true
    predecessor z y m e tight = elim (Bool-cases (elem z es)) [
      | inl f ↦ f
      | inr f ↦
          let more = references-le h (z ∷ es) objects y (f, grown.nodup) (m, grown.inside) in
          absurd (omega (arith, more, tight, occurrences-pos y (targets_of h z) e))
    ]

    pub all_Tight : (z : ℕ) → elem z objects ≡ true → Reaches h ptr z → Tight z
    all_Tight z m (here e) = subst Tight (sym e) Tight-self
    all_Tight z m (step y e more) =
        let y_member = All-elem _ y (targets_of h z) (inside z m) e in
        let next = all_Tight y y_member more in
        let followed = predecessor z y m e next.tight in
        let linked_y = All-elem _ y (targets_of h z) (All-elem _ z es grown.closed followed) e in
        elim (Bool-cases (z == ptr)) [
          | inl same ↦ let it : z ≡ ptr = ground (arith, same) in subst Tight (sym it) Tight-self
          | inr other ↦ Tight-other z other followed (elim next.way [
            | inl there ↦
                let it : y ≡ ptr = ground (arith, there) in
                last (subst (λ (x : ℕ). elem x (children_of after.obj_map z) ≡ true) it linked_y)
            | inr chain ↦ link y linked_y chain
          ])
        ]
