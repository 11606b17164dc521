-- ===== src/Ptr/Safety.antt =====
-- What `Reset` of aether/obj/ptr.h may delete.
use aether_client_cpp_new.Prelude.{
  ℕ, ◌+◌, ◌≤◌, ◌<◌, ◌≡◌, refl, ◌∙◌, arith, Bool, true, false, some, List, [], ◌∷◌, All, ◌==◌,
  if◌then◌else◌, Bool-cases, inl, inr,
}
use aether_client_cpp_new.FileSystem.{find, keys}
use aether_client_cpp_new.Ptr.{Heap, RefTree, ObjMap, lets_delete, safe_to_delete}
use aether_client_cpp_new.Ptr.Members.{elem, Nodup, All-elem, All-of}
use aether_client_cpp_new.Ptr.Visits.{targets_of, occurrences, references, clash}

-- `z` has a pointer to an object from which the pointers lead to `ptr`, or is `ptr` itself
pub data Reaches (h : Heap) (ptr : ℕ) : ℕ → Type 0 where
  here : {z : ℕ} → z ≡ ptr → Reaches h ptr z
  step : {z : ℕ} (y : ℕ) → elem y (targets_of h z) ≡ true → Reaches h ptr y → Reaches h ptr z

-- the references of some objects are among those of all
remove : ℕ → List ℕ → List ℕ
remove a [] = []
remove a (x ∷ xs) = if x == a then xs else x ∷ remove a xs

references-remove :
    (h : Heap) (a : ℕ) (os : List ℕ) (z : ℕ)
    → elem a os ≡ true
    → references h os z ≡ occurrences z (targets_of h a) + references h (remove a os) z
unfolding remove
references-remove h a [] z e = absurd (clash _ e refl)
references-remove h a (x ∷ os) z e = elim (Bool-cases (x == a)) [
  | inl f ↦ let same : x ≡ a = ground (arith, f) in rw f (rw same refl)
  | inr f ↦ rw f (omega (arith, references-remove h a os z (rw f at e)))
]

elem-remove : (a b : ℕ) (os : List ℕ) → (a == b) ≡ false → elem b (remove a os) ≡ elem b os
unfolding remove
elem-remove a b [] e = refl
elem-remove a b (x ∷ os) e = ground (arith, e, elem-remove a b os e)

pub references-le :
    (h : Heap) (es os : List ℕ) (z : ℕ)
    → Nodup es
    → All (λ e. elem e os ≡ true) es
    → references h es z ≤ references h os z
references-le h [] os z n i = omega arith
references-le h (e ∷ es) os z (absent, n) (f, i) =
    let rest =
      references-le h es (remove e os) z n
        (All-of _ es (λ x g. elem-remove e x os (differ x g) ∙ All-elem _ x es i g)) in
    omega (arith, references-remove h e os z f, rest)
  where
    differ : (x : ℕ) → elem x es ≡ true → (e == x) ≡ false
    differ x g = elim (Bool-cases (e == x)) [
      | inr other ↦ other
      | inl self ↦
          let same : e ≡ x = ground (arith, self) in absurd (clash _ g (rw (← same) absent))
    ]

pub occurrences-pos : (z : ℕ) (ts : List ℕ) → elem z ts ≡ true → 0 < occurrences z ts
occurrences-pos z [] e = absurd (clash _ e refl)
occurrences-pos z (t ∷ ts) e = ground (arith, occurrences-pos z ts)

-- one round more of the loop
module _ (m : ObjMap) (fuel ptr o : ℕ) (ref : RefTree) (more : ObjMap) where
  safe_on :
      lets_delete m fuel ptr o ref ≡ some true
      → safe_to_delete m fuel ptr ((o, ref) ∷ more) ≡ safe_to_delete m fuel ptr more
  unfolding safe_to_delete
  safe_on e = rw (e, safe_to_delete) refl

  safe_stop :
      lets_delete m fuel ptr o ref ≡ some false
      → safe_to_delete m fuel ptr ((o, ref) ∷ more) ≡ some false
  unfolding safe_to_delete
  safe_stop e = rw (e, safe_to_delete) refl

module _ (m : ObjMap) (fuel ptr : ℕ) (objects : List ℕ)
    (ends : (o : ℕ) (r : RefTree)
      → elem o objects ≡ true
      → (b : Bool) × (lets_delete m fuel ptr o r ≡ some b)) where
  -- the loop ends, and if its result is that the object may be deleted, each entry lets it
  pub record Loop (entries : ObjMap) : Type 0 where
    pub safe : Bool
    pub result : safe_to_delete m fuel ptr entries ≡ some safe
    pub all_let :
        safe ≡ true
        → (z : ℕ) (r : RefTree) → find z entries ≡ some r
        → lets_delete m fuel ptr z r ≡ some true

  pub Loop-ends :
      (entries : ObjMap) → All (λ k. elem k objects ≡ true) (keys entries) → Loop entries
  unfolding keys find
  Loop-ends [] i = record {
    safe = true;
    result = unfold safe_to_delete in refl;
    all_let = λ s z r e. absurd (cc);
  }
  Loop-ends ((o, ref) ∷ more) (i, is) =
      let (b, e) = ends o ref i in
      let rest = Loop-ends more is in
      elim (Bool-cases b) [
        | inr f ↦ record {
          safe = false;
          result = safe_stop m fuel ptr o ref more (rw f at e);
          all_let = λ s z r g. absurd (clash _ s refl);
        }
        | inl f ↦
            let lets : lets_delete m fuel ptr o ref ≡ some true = rw f at e in
            record {
              safe = rest.safe;
              result = safe_on m fuel ptr o ref more lets ∙ rest.result;
              all_let = λ s z r g. elim (Bool-cases (o == z)) [
                | inl self ↦
                    let same : o ≡ z = ground (arith, self) in
                    let it : ref ≡ r = ground (arith, g, self) in rw (← same, ← it) lets
                | inr other ↦ rest.all_let s z r (rw other at g)
              ];
            }
      ]
