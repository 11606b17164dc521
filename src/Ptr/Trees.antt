-- ===== src/Ptr/Trees.antt =====
-- What one reference changes in the map of aether/obj/ptr.h.
use aether_client_cpp_new.Prelude.{
  ℕ, ◌+◌, ◌≡◌, refl, ap, ◌∙◌, arith, Bool, true, false, Option, none, some, List, [], All, ◌==◌,
  if◌then◌else◌, Bool-cases, inl, inr,
}
use aether_client_cpp_new.FileSystem.{find, assign}
use aether_client_cpp_new.FileSystem.Maps.{find-assign, is_some}
use aether_client_cpp_new.Ptr.{
  Heap, RefTree, ObjMap, new_tree, counted, insert, with_child, try_emplace, change, Visit,
  count_reference, children_in,
}
use aether_client_cpp_new.Ptr.Members.{elem}

abbrev pub counter_in : Option RefTree → ℕ
counter_in none = 0
counter_in (some r) = r.reachable_ref_count

-- the count of an object, whether it has an entry, and whether one is a child of another
abbrev pub count_of : ObjMap → ℕ → ℕ
count_of m z = counter_in (find z m)

abbrev pub present : ObjMap → ℕ → Bool
present m z = is_some (find z m)

abbrev pub linked : ObjMap → ℕ → ℕ → Bool
linked m e t = elem t (children_in (find e m))

abbrev update_tree : (RefTree → RefTree) → Option RefTree → Option RefTree
update_tree g none = none
update_tree g (some r) = some (g r)

abbrev emplaced : RefTree → Option RefTree → Option RefTree
emplaced t none = some t
emplaced t (some r) = some r

find-change :
    (z a : ℕ) (g : RefTree → RefTree) (m : ObjMap)
    → find z (change a g m) ≡ (if a == z then update_tree g (find z m) else find z m)
unfolding change
find-change z a g m = at (find a m) refl
  where
    at :
        (o : Option RefTree)
        → find a m ≡ o
        → find z (elim o as (λ x. ObjMap) [ none ↦ m | some r ↦ assign a (g r) m ])
          ≡ (if a == z then update_tree g (find z m) else find z m)
    at none e = elim (Bool-cases (a == z)) [
      | inl f ↦
          let same : a ≡ z = ground (arith, f) in
          rw f (let e' : find z m ≡ none = rw (← same) e in rw e' refl)
      | inr f ↦ rw f refl
    ]
    at (some r) e = find-assign a z (g r) m ∙ elim (Bool-cases (a == z)) [
      | inl f ↦
          let same : a ≡ z = ground (arith, f) in
          rw f (let e' : find z m ≡ some r = rw (← same) e in rw e' refl)
      | inr f ↦ rw f refl
    ]

find-try_emplace :
    (z a : ℕ) (t : RefTree) (m : ObjMap)
    → find z (try_emplace a t m) ≡ (if a == z then emplaced t (find z m) else find z m)
unfolding try_emplace
find-try_emplace z a t m = at (find a m) refl
  where
    at :
        (o : Option RefTree)
        → find a m ≡ o
        → find z (elim o as (λ x. ObjMap) [ none ↦ assign a t m | some r ↦ m ])
          ≡ (if a == z then emplaced t (find z m) else find z m)
    at none e = find-assign a z t m ∙ elim (Bool-cases (a == z)) [
      | inl f ↦
          let same : a ≡ z = ground (arith, f) in
          rw f (let e' : find z m ≡ none = rw (← same) e in rw e' refl)
      | inr f ↦ rw f refl
    ]
    at (some r) e = elim (Bool-cases (a == z)) [
      | inl f ↦
          let same : a ≡ z = ground (arith, f) in
          rw f (let e' : find z m ≡ some r = rw (← same) e in rw e' refl)
      | inr f ↦ rw f refl
    ]

-- an entry after a reference: whether the reference is to its object, and whether it is in it
abbrev referred : ℕ → ℕ → Bool → Bool → Option RefTree → Option RefTree
referred n t to of o =
    let emplaced_o = if to then emplaced (new_tree n) o else o in
    let counted_o = if to then update_tree counted emplaced_o else emplaced_o in
    if of then update_tree (with_child t) counted_o else counted_o

find-count_reference :
    (h : Heap) (p t : ℕ) (s : Visit) (z : ℕ)
    → find z (count_reference h p t s).obj_map
      ≡ referred (h t).ref_counter t (t == z) (p == z) (find z s.obj_map)
unfolding count_reference
find-count_reference h p t s z =
    let emplaced_map = try_emplace t (new_tree (h t).ref_counter) s.obj_map in
    rw (find-change z p (with_child t) (change t counted emplaced_map)) (
      rw (find-change z t counted emplaced_map)
        (rw (find-try_emplace z t (new_tree (h t).ref_counter) s.obj_map) refl))

referred-counter :
    (n t : ℕ) (to of : Bool) (o : Option RefTree)
    → counter_in (referred n t to of o) ≡ counter_in o + (if to then 1 else 0)
referred-counter n t true true none = refl
referred-counter n t true false none = refl
referred-counter n t false true none = refl
referred-counter n t false false none = refl
referred-counter n t true true (some r) = refl
referred-counter n t true false (some r) = refl
referred-counter n t false true (some r) = omega arith
referred-counter n t false false (some r) = omega arith

pub count_of-reference :
    (h : Heap) (p t : ℕ) (s : Visit) (z : ℕ)
    → count_of (count_reference h p t s).obj_map z
      ≡ count_of s.obj_map z + (if t == z then 1 else 0)
count_of-reference h p t s z =
    ap counter_in (find-count_reference h p t s z)
    ∙ referred-counter (h t).ref_counter t (t == z) (p == z) (find z s.obj_map)

referred-present :
    (n t : ℕ) (to of : Bool) (o : Option RefTree)
    → is_some (referred n t to of o) ≡ (if to then true else is_some o)
referred-present n t true true none = refl
referred-present n t true false none = refl
referred-present n t false true none = refl
referred-present n t false false none = refl
referred-present n t true true (some r) = refl
referred-present n t true false (some r) = refl
referred-present n t false true (some r) = refl
referred-present n t false false (some r) = refl

pub present-reference :
    (h : Heap) (p t : ℕ) (s : Visit) (z : ℕ)
    → present (count_reference h p t s).obj_map z ≡ (if t == z then true else present s.obj_map z)
present-reference h p t s z =
    ap is_some (find-count_reference h p t s z)
    ∙ referred-present (h t).ref_counter t (t == z) (p == z) (find z s.obj_map)

elem-insert : (c t : ℕ) (ts : List ℕ) → elem c ts ≡ true → elem c (insert t ts) ≡ true
elem-insert c t ts e = ground (arith, e)

elem-insert_self : (t : ℕ) (ts : List ℕ) → elem t (insert t ts) ≡ true
elem-insert_self t ts = ground arith

referred-linked :
    (n t c : ℕ) (to of : Bool) (o : Option RefTree)
    → elem c (children_in o) ≡ true
    → elem c (children_in (referred n t to of o)) ≡ true
referred-linked n t c true true none e = absurd (cc)
referred-linked n t c true false none e = e
referred-linked n t c false true none e = e
referred-linked n t c false false none e = e
referred-linked n t c true true (some r) e = elem-insert c t r.children e
referred-linked n t c true false (some r) e = e
referred-linked n t c false true (some r) e = elem-insert c t r.children e
referred-linked n t c false false (some r) e = e

pub linked-reference :
    (h : Heap) (p t : ℕ) (s : Visit) (e c : ℕ)
    → linked s.obj_map e c ≡ true
    → linked (count_reference h p t s).obj_map e c ≡ true
linked-reference h p t s e c l =
    ap (λ o. elem c (children_in o)) (find-count_reference h p t s e)
    ∙ referred-linked (h t).ref_counter t c (t == e) (p == e) (find e s.obj_map) l

referred-linked_self :
    (n t : ℕ) (to : Bool) (o : Option RefTree)
    → is_some o ≡ true
    → elem t (children_in (referred n t to true o)) ≡ true
referred-linked_self n t to none e = absurd (cc)
referred-linked_self n t true (some r) e = elem-insert_self t r.children
referred-linked_self n t false (some r) e = elem-insert_self t r.children

pub linked-reference_self :
    (h : Heap) (p t : ℕ) (s : Visit)
    → present s.obj_map p ≡ true
    → linked (count_reference h p t s).obj_map p t ≡ true
linked-reference_self h p t s l =
    let self : (p == p) ≡ true = ground arith in
    ap (λ o. elem t (children_in o)) (find-count_reference h p t s p)
    ∙ rw self (referred-linked_self (h t).ref_counter t (t == p) (find p s.obj_map) l)

-- an entry is of an object and has its counter, and its children are objects
abbrev pub Sound : Heap → List ℕ → ℕ → Option RefTree → Type 0
Sound h objects z none = Unit
Sound h objects z (some r) =
    (r.ref_count ≡ (h z).ref_counter)
    × All (λ c. elem c objects ≡ true) r.children
    × (elem z objects ≡ true)

abbrev pub AllSound : Heap → List ℕ → ObjMap → Type 0
AllSound h objects m = (z : ℕ) → Sound h objects z (find z m)

insert-All :
    (objects : List ℕ) (t : ℕ) (ts : List ℕ)
    → elem t objects ≡ true
    → All (λ c. elem c objects ≡ true) ts
    → All (λ c. elem c objects ≡ true) (insert t ts)
insert-All objects t ts e h = elim (Bool-cases (elem t ts)) [ inl f ↦ rw f h | inr f ↦ rw f (e, h) ]

module _ (h : Heap) (objects : List ℕ) (t z : ℕ) (e : elem t objects ≡ true) where
  referred-Sound :
      (to of : Bool) (o : Option RefTree)
      → (to ≡ true → t ≡ z)
      → Sound h objects z o
      → Sound h objects z (referred (h t).ref_counter t to of o)
  referred-Sound true true none same v =
      (ap (λ a. (h a).ref_counter) (same refl), insert-All objects t [] e tt, rw (← (same refl)) e)
  referred-Sound true false none same v =
      (ap (λ a. (h a).ref_counter) (same refl), tt, rw (← (same refl)) e)
  referred-Sound false true none same v = tt
  referred-Sound false false none same v = tt
  referred-Sound true true (some r) same v = (v.0, insert-All objects t r.children e v.1, v.2)
  referred-Sound true false (some r) same v = v
  referred-Sound false true (some r) same v = (v.0, insert-All objects t r.children e v.1, v.2)
  referred-Sound false false (some r) same v = v

pub AllSound-reference :
    (h : Heap) (objects : List ℕ) (p t : ℕ) (s : Visit)
    → elem t objects ≡ true
    → AllSound h objects s.obj_map
    → AllSound h objects (count_reference h p t s).obj_map
AllSound-reference h objects p t s e v z = rw (find-count_reference h p t s z) (
    referred-Sound h objects t z e (t == z) (p == z) (find z s.obj_map) (λ f. ground (arith, f))
      (v z))
