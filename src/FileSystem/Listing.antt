-- ===== src/FileSystem/Listing.antt =====
-- What `Enumerate` of file_system_ram.cpp lists.
use aether_client_cpp_new.Prelude.{
  ℕ, ◌≡◌, refl, ap, ◌∙◌, Bool, true, false, Option, none, some, List, [], ◌∷◌, ◌==◌, ==_iff,
  if◌then◌else◌, Bool-cases, inl, inr,
}
use aether_client_cpp_new.FileSystem.{
  or_empty, find, at, assign, keys, ObjClassData, ClassData, enumerate, store, remove_all,
}
use aether_client_cpp_new.FileSystem.Maps.{
  Ascending, find-assign, at-assign, assign-Ascending, has, is_some, has-keys,
}
use aether_client_cpp_new.FileSystem.Stored.{
  Event, on_store, on_remove, on_remove_all, step, run, remove-erase,
}

-- the classes of an object that were stored and not removed since
abbrev pub listed : (ℕ → ℕ → Bool) → Event → ℕ → ℕ → Bool
listed known (on_store o c v os) obj_id class_id =
    if o == obj_id
    then (if c == class_id then true else known obj_id class_id)
    else known obj_id class_id
listed known (on_remove o) obj_id class_id = if o == obj_id then false else known obj_id class_id
listed known on_remove_all obj_id class_id = false

abbrev pub run_listed : (ℕ → ℕ → Bool) → List Event → ℕ → ℕ → Bool
run_listed known [] = known
run_listed known (e ∷ es) = run_listed (listed known e) es

known_class : ObjClassData → ℕ → ℕ → Bool
known_class state obj_id class_id = is_some (find class_id (at obj_id state))

-- the classes of each object stand in order
Sorted : ObjClassData → Type 0
Sorted state = (obj_id : ℕ) → Ascending (keys (at obj_id state))

known_class-step :
    (state : ObjClassData) (e : Event) (o c : ℕ)
    → known_class (step state e) o c ≡ listed (known_class state) e o c
unfolding known_class step store remove_all at find
known_class-step state (on_store obj_id class_id version os) o c =
    let versions = assign version os (at class_id (at obj_id state)) in
    let classes = assign class_id versions (at obj_id state) in
    elim (Bool-cases (obj_id == o)) [
      | inl e ↦
          let there = ap (λ i. is_some (find c (at i state))) ((==_iff obj_id o).0 e) in
          elim (Bool-cases (class_id == c)) [
            | inl f ↦
                rw
                  (
                    at-assign obj_id o classes state,
                    e,
                    find-assign class_id c versions (at obj_id state),
                    f,
                  )
                  refl
            | inr f ↦
                rw
                  (
                    at-assign obj_id o classes state,
                    e,
                    find-assign class_id c versions (at obj_id state),
                    f,
                  )
                  there
          ]
      | inr e ↦ rw (at-assign obj_id o classes state, e) refl
    ]
known_class-step state (on_remove obj_id) o c = elim (Bool-cases (obj_id == o)) [
  | inl e ↦ rw (remove-erase state obj_id o, e) refl
  | inr e ↦ rw (remove-erase state obj_id o, e) refl
]
known_class-step state on_remove_all o c = refl

step-Sorted : (state : ObjClassData) (e : Event) → Sorted state → Sorted (step state e)
unfolding Sorted step store remove_all at find keys
step-Sorted state (on_store obj_id class_id version os) h o =
    let versions = assign version os (at class_id (at obj_id state)) in
    let classes = assign class_id versions (at obj_id state) in
    elim (Bool-cases (obj_id == o)) [
      | inl e ↦
          rw (at-assign obj_id o classes state, e)
            (assign-Ascending class_id versions (at obj_id state) (h obj_id))
      | inr e ↦ rw (at-assign obj_id o classes state, e) (h o)
    ]
step-Sorted state (on_remove obj_id) h o = elim (Bool-cases (obj_id == o)) [
  | inl e ↦ rw (remove-erase state obj_id o, e) tt
  | inr e ↦ rw (remove-erase state obj_id o, e) (h o)
]
step-Sorted state on_remove_all h o = tt

run-Sorted : (state : ObjClassData) (es : List Event) → Sorted state → Sorted (run state es)
unfolding run
run-Sorted state [] h = h
run-Sorted state (e ∷ es) h = run-Sorted (step state e) es (step-Sorted state e h)

run-known_class :
    (state : ObjClassData) (es : List Event) (o c : ℕ)
    → known_class (run state es) o c ≡ run_listed (known_class state) es o c
unfolding run
run-known_class state [] o c = refl
run-known_class state (e ∷ es) o c =
    run-known_class (step state e) es o c
    ∙ ap (λ known. run_listed known es o c) (λ i x y. known_class-step state e x y i)

enumerate-keys : (state : ObjClassData) (o : ℕ) → enumerate state o ≡ keys (at o state)
unfolding enumerate at keys
enumerate-keys state o = by_found (find o state)
  where
    by_found :
        (found : Option ClassData)
        → elim found as (λ x. List ℕ) [ none ↦ [] | some classes ↦ keys classes ]
          ≡ keys (or_empty found)
    by_found none = refl
    by_found (some classes) = refl

-- After any stores and removals on an empty file system, `Enumerate` lists the classes of an object
-- in ascending order, none twice, and has exactly those that were stored for it since it or everything
-- was last removed.
pub enumerate-run :
    (es : List Event) (obj_id class_id : ℕ)
    → Ascending (enumerate (run [] es) obj_id)
      × (has class_id (enumerate (run [] es) obj_id) ≡ run_listed (λ o c. false) es obj_id class_id)
unfolding Sorted known_class
enumerate-run es obj_id class_id = rw (enumerate-keys (run [] es) obj_id) (
  sorted obj_id,
  has-keys class_id (at obj_id (run [] es)) ∙ (run-known_class [] es obj_id class_id ∙ empty),
)
  where
    sorted : Sorted (run [] es)
    sorted = run-Sorted [] es (unfold Sorted at find keys in λ o. tt)

    nothing : (o c : ℕ) → known_class [] o c ≡ false
    nothing o c = unfold known_class at find in refl

    empty :
        run_listed (known_class []) es obj_id class_id
        ≡ run_listed (λ o c. false) es obj_id class_id
    empty = ap (λ known. run_listed known es obj_id class_id) (λ i o c. nothing o c i)
