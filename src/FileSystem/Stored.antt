-- ===== src/FileSystem/Stored.antt =====
-- What file_system_ram.cpp keeps, against a plain table of what was stored.
use aether_client_cpp_new.Prelude.{
  ℕ, ◌≡◌, refl, sym, ap, ap₂, ◌∙◌, Option, none, some, List, [], ◌∷◌, ◌==◌, ==_iff, if◌then◌else◌,
  Bool-cases, inl, inr,
}
use aether_client_cpp_new.FileSystem.{
  Map, or_empty, find, at, assign, erase, ObjClassData, ClassData, store, value_or, load, remove,
  remove_all,
}
use aether_client_cpp_new.FileSystem.Maps.{find-assign, at-assign, at-erase}

pub data Event : Type 0 where
  on_store : ℕ → ℕ → ℕ → List ℕ → Event
  on_remove : ℕ → Event
  on_remove_all : Event

unfoldable pub step : ObjClassData → Event → ObjClassData
step state (on_store obj_id class_id version os) = store state obj_id class_id version os
step state (on_remove obj_id) = remove state obj_id
step state on_remove_all = remove_all state

unfoldable pub run : ObjClassData → List Event → ObjClassData
unfolding step
run state [] = state
run state (e ∷ es) = run (step state e) es

-- the table: what stands at an object, a class and a version
abbrev pub Table : Type 0
Table = ℕ → ℕ → ℕ → Option (List ℕ)

abbrev pub written : Table → Event → Table
written table (on_store o c v os) obj_id class_id version =
    if o == obj_id
    then (if c == class_id
        then (if v == version then some os else table obj_id class_id version)
        else table obj_id class_id version)
    else table obj_id class_id version
written table (on_remove o) obj_id class_id version =
    if o == obj_id then none else table obj_id class_id version
written table on_remove_all obj_id class_id version = none

abbrev pub run_table : Table → List Event → Table
run_table table [] = table
run_table table (e ∷ es) = run_table (written table e) es

view : ObjClassData → Table
view state obj_id class_id version = find version (at class_id (at obj_id state))

pub remove-erase :
    (state : ObjClassData) (obj_id k : ℕ)
    → at k (remove state obj_id) ≡ (if obj_id == k then [] else at k state)
unfolding remove at
remove-erase state obj_id k = by_found (find obj_id state) refl
  where
    by_found :
        (o : Option ClassData)
        → find obj_id state ≡ o
        → at k (elim o [ none ↦ state | some classes ↦ erase obj_id state ])
          ≡ (if obj_id == k then [] else at k state)
    by_found none e = elim (Bool-cases (obj_id == k)) [
      | inl h ↦
          let same : obj_id ≡ k = (==_iff obj_id k).0 h in
          rw h (ap or_empty (sym (ap (λ n. find n state) same) ∙ e))
      | inr h ↦ rw h refl
    ]
    by_found (some classes) e = at-erase obj_id k state

view-store :
    (state : ObjClassData) (obj_id class_id version : ℕ) (os : List ℕ) (o c v : ℕ)
    → view (store state obj_id class_id version os) o c v
      ≡ written (view state) (on_store obj_id class_id version os) o c v
unfolding view store
view-store state obj_id class_id version os o c v =
    let versions = at class_id (at obj_id state) in
    let classes = assign class_id (assign version os versions) (at obj_id state) in
    elim (Bool-cases (obj_id == o)) [
      | inl e ↦ elim (Bool-cases (class_id == c)) [
        | inl f ↦
            let there =
              ap₂ (λ i j. find v (at j (at i state))) ((==_iff obj_id o).0 e)
                ((==_iff class_id c).0 f) in
            rw
              (
                at-assign obj_id o classes state,
                e,
                at-assign class_id c (assign version os versions) (at obj_id state),
                f,
                find-assign version v os versions,
                there,
              )
              refl
        | inr f ↦
            let there = ap (λ i. find v (at c (at i state))) ((==_iff obj_id o).0 e) in
            rw
              (
                at-assign obj_id o classes state,
                e,
                at-assign class_id c (assign version os versions) (at obj_id state),
                f,
              )
              there
      ]
      | inr e ↦ rw (at-assign obj_id o classes state, e) refl
    ]

view-step :
    (state : ObjClassData) (e : Event) (o c v : ℕ)
    → view (step state e) o c v ≡ written (view state) e o c v
unfolding view step remove_all at find
view-step state (on_store obj_id class_id version os) o c v =
    view-store state obj_id class_id version os o c v
view-step state (on_remove obj_id) o c v = elim (Bool-cases (obj_id == o)) [
  | inl e ↦ rw (remove-erase state obj_id o, e) refl
  | inr e ↦ rw (remove-erase state obj_id o, e) refl
]
view-step state on_remove_all o c v = refl

run-view :
    (state : ObjClassData) (es : List Event) (o c v : ℕ)
    → view (run state es) o c v ≡ run_table (view state) es o c v
unfolding run
run-view state [] o c v = refl
run-view state (e ∷ es) o c v =
    run-view (step state e) es o c v
    ∙ ap (λ table. run_table table es o c v) (λ i x y z. view-step state e x y z i)

load-view :
    (state : ObjClassData) (o c v : ℕ) (is : List ℕ)
    → load state o c v is ≡ value_or is (view state o c v)
unfolding load view at find
load-view state o c v is = by_object (find o state)
  where
    by_class :
        (found : Option (Map (List ℕ)))
        → elim found as (λ x. List ℕ) [ none ↦ is | some versions ↦ value_or is (find v versions) ]
          ≡ value_or is (find v (or_empty found))
    by_class none = refl
    by_class (some versions) = refl

    by_object :
        (found : Option ClassData)
        → elim found as (λ x. List ℕ) [
          | none ↦ is
          | some classes ↦ elim (find c classes) [
            | none ↦ is
            | some versions ↦ value_or is (find v versions)
          ]
        ]
          ≡ value_or is (find v (or_empty (find c (or_empty found))))
    by_object none = refl
    by_object (some classes) = by_class (find c classes)

-- After any stores and removals on an empty file system, `Load` of an object, a class and a version
-- gives what was stored last under the three, unless the object or everything was removed since, and
-- otherwise it leaves the buffer as it is.
pub load-run :
    (es : List Event) (obj_id class_id version : ℕ) (is : List ℕ)
    → load (run [] es) obj_id class_id version is
      ≡ value_or is (run_table (λ o c v. none) es obj_id class_id version)
load-run es obj_id class_id version is =
    load-view (run [] es) obj_id class_id version is
    ∙ ap (value_or is) (run-view [] es obj_id class_id version ∙ empty)
  where
    nothing : (o c v : ℕ) → view [] o c v ≡ none
    nothing o c v = unfold view at find in refl

    empty :
        run_table (view []) es obj_id class_id version
        ≡ run_table (λ o c v. none) es obj_id class_id version
    empty = ap (λ table. run_table table es obj_id class_id version) (λ i o c v. nothing o c v i)
