-- ===== src/Ptr/Visits.antt =====
-- The visit of aether/obj/ptr.h ends, and counts the references from all objects that it reaches.
use aether_client_cpp_new.Prelude.{
  ℕ, ◌+◌, ◌≤◌, ◌<◌, ◌≡◌, arith, Bool, true, false, none, some, List, [], ◌∷◌, ◌++◌, All, All-append,
  ◌==◌, if◌then◌else◌, Bool-cases, inl, inr, length,
}
use aether_client_cpp_new.Ptr.{Heap, Field, get, object_key, Visit}
use aether_client_cpp_new.Ptr.Members.{elem, Nodup, All-elem, All-map, Nodup-append}
use aether_client_cpp_new.Ptr.Trees.{count_of, present, linked, AllSound}

-- how many of the objects do not pass the test
abbrev pub missing : (ℕ → Bool) → List ℕ → ℕ
missing test [] = 0
missing test (a ∷ os) = (if test a then 0 else 1) + missing test os

pub missing_none : (f : ℕ → Bool) (os : List ℕ) → missing f os ≤ length os
missing_none f [] = omega arith
missing_none f (a ∷ os) = ground (arith, missing_none f os)

pub missing-le :
    (f g : ℕ → Bool) (os : List ℕ)
    → ((a : ℕ) → f a ≡ true → g a ≡ true)
    → missing g os ≤ missing f os
missing-le f g [] h = omega arith
missing-le f g (a ∷ os) h = ground (arith, h a, missing-le f g os h)

pub missing-lt :
    (f g : ℕ → Bool) (a : ℕ) (os : List ℕ)
    → ((b : ℕ) → f b ≡ true → g b ≡ true)
    → elem a os ≡ true
    → f a ≡ false
    → g a ≡ true
    → missing g os < missing f os
missing-lt f g a [] h e p q = absurd (cc)
missing-lt f g a (b ∷ os) h e p q = elim (Bool-cases (b == a)) [
  | inl same ↦
      let here : b ≡ a = ground (arith, same) in
      let p' : f b ≡ false = rw here p in
      let q' : g b ≡ true = rw here q in rw (p', q') (omega (arith, missing-le f g os h))
  | inr other ↦ ground (arith, h b, missing-lt f g a os h (rw other at e) p q)
]

-- the objects that the pointers have, and how often one is among them
abbrev pub targets : Heap → List Field → List ℕ
targets h [] = []
targets h (f ∷ fs) = elim (get h f.pointer) [ none ↦ targets h fs | some t ↦ t ∷ targets h fs ]

abbrev pub occurrences : ℕ → List ℕ → ℕ
occurrences z [] = 0
occurrences z (t ∷ ts) = (if t == z then 1 else 0) + occurrences z ts

abbrev pub targets_of : Heap → ℕ → List ℕ
targets_of h a = targets h (h a).fields

-- the references to an object from some others
abbrev pub references : Heap → List ℕ → ℕ → ℕ
references h [] z = 0
references h (a ∷ os) z = occurrences z (targets_of h a) + references h os z

pub references-append :
    (h : Heap) (os bs : List ℕ) (z : ℕ)
    → references h (os ++ bs) z ≡ references h os z + references h bs z
references-append h [] bs z = omega arith
references-append h (a ∷ os) bs z = omega (arith, references-append h os bs z)

-- The pointers of the objects have objects among them.
abbrev pub IsClosed : Heap → List ℕ → Type 0
IsClosed h objects =
    (a : ℕ) → elem a objects ≡ true → All (λ t. elem t objects ≡ true) (targets_of h a)

pub occurrences-append :
    (z : ℕ) (ts us : List ℕ) → occurrences z (ts ++ us) ≡ occurrences z ts + occurrences z us
occurrences-append z [] us = omega arith
occurrences-append z (t ∷ ts) us = omega (arith, occurrences-append z ts us)

pub clash : (b : Bool) → b ≡ true → b ≡ false → ⊥
clash true e f = cc
clash false e f = cc

module _ (h : Heap) (objects : List ℕ) where
  abbrev pub reached : Visit → ℕ → Bool
  reached s a = elem (object_key h a) s.visited

  -- What a visit from `s` to `s'` does: it counts all pointers of the objects `es`, which it visits, and
  -- of the object `p` some that have the objects `ts`. An object is not visited where the entry of the
  -- pointer to it is taken for another one.
  pub record Grown (p : ℕ) (s s' : Visit) (es ts : List ℕ) : Type 0 where
    pub nodup : Nodup es
    pub fresh : All (λ e. reached s e ≡ false) es
    pub inside : All (λ e. elem e objects ≡ true) es
    pub old : (k : ℕ) → elem k s.visited ≡ true → elem k s'.visited ≡ true
    pub seen : All (λ e. (reached s' e ≡ true) × (present s'.obj_map e ≡ true)) es
    pub closed : All (λ e. All (λ t. linked s'.obj_map e t ≡ true) (targets_of h e)) es
    pub followed : All (λ t. linked s'.obj_map p t ≡ true) ts
    pub links : (e t : ℕ) → linked s.obj_map e t ≡ true → linked s'.obj_map e t ≡ true
    pub entries : (z : ℕ) → present s.obj_map z ≡ true → present s'.obj_map z ≡ true
    pub counts :
        (z : ℕ)
        → count_of s'.obj_map z ≡ count_of s.obj_map z + references h es z + occurrences z ts
    pub sound : AllSound h objects s.obj_map → AllSound h objects s'.obj_map

  pub Grown-none : (p : ℕ) (s : Visit) → Grown p s s [] []
  Grown-none p s = record {
    nodup = tt;
    fresh = tt;
    inside = tt;
    old = λ k e. e;
    seen = tt;
    closed = tt;
    followed = tt;
    links = λ e t l. l;
    entries = λ z e. e;
    counts = λ z. omega arith;
    sound = λ v. v;
  }

  still_linked :
      (p : ℕ) (s s' : Visit) (es ts : List ℕ) (e : ℕ) (xs : List ℕ)
      → Grown p s s' es ts
      → All (λ t. linked s.obj_map e t ≡ true) xs
      → All (λ t. linked s'.obj_map e t ≡ true) xs
  still_linked p s s' es ts e xs g = All-map _ _ xs (λ t l. g.links e t l)

  pub not_before :
      (s s' : Visit) (e : ℕ)
      → ((k : ℕ) → elem k s.visited ≡ true → elem k s'.visited ≡ true)
      → reached s' e ≡ false
      → reached s e ≡ false
  not_before s s' e old f = elim (Bool-cases (reached s e)) [
    | inr g ↦ g
    | inl g ↦ absurd (clash _ (old (object_key h e) g) f)
  ]

  pub Grown-append :
      (p : ℕ) (s s1 s2 : Visit) (es es' ts ts' : List ℕ)
      → Grown p s s1 es ts
      → Grown p s1 s2 es' ts'
      → Grown p s s2 (es ++ es') (ts ++ ts')
  Grown-append p s s1 s2 es es' ts ts' g g' = record {
    nodup = Nodup-append es es' g.nodup g'.nodup (
        All-map _ _ es'
          (λ y e. elim (Bool-cases (elem y es)) [
            | inr f ↦ f
            | inl f ↦ let (r, _) = All-elem _ y es g.seen f in absurd (clash _ r e)
          ])
          g'.fresh);
    fresh =
        All-append _ es es' g.fresh (All-map _ _ es' (λ e f. not_before s s1 e g.old f) g'.fresh);
    inside = All-append _ es es' g.inside g'.inside;
    old = λ k e. g'.old k (g.old k e);
    seen =
        All-append _ es es'
          (All-map _ _ es (λ e (r, l). (g'.old (object_key h e) r, g'.entries e l)) g.seen) g'.seen;
    closed =
        All-append _ es es'
          (All-map _ _ es (λ e c. still_linked p s1 s2 es' ts' e (targets_of h e) g' c) g.closed)
          g'.closed;
    followed = All-append _ ts ts' (still_linked p s1 s2 es' ts' p ts g' g.followed) g'.followed;
    links = λ e t l. g'.links e t (g.links e t l);
    entries = λ z l. g'.entries z (g.entries z l);
    counts = λ z.
        omega (
          arith,
          g.counts z,
          g'.counts z,
          references-append h es es' z,
          occurrences-append z ts ts',
        );
    sound = λ v. g'.sound (g.sound v);
  }
