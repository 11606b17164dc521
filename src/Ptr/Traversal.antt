-- ===== src/Ptr/Traversal.antt =====
-- The visit of an object ends if the fuel exceeds the objects that are left, and does what `Grown` says.
use aether_client_cpp_new.Prelude.{
  ℕ, zero, suc, ◌+◌, ◌≤◌, ◌<◌, ◌≡◌, refl, ap, ◌∙◌, arith, true, false, Option, none, some, List, [],
  ◌∷◌, ◌++◌, All, ◌==◌, if◌then◌else◌, Bool-cases, ◌⊎◌, inl, inr,
}
use aether_client_cpp_new.Ptr.{
  Heap, Field, get, object_key, field_key, Visit, count_reference, visit_pointer, visit_fields,
  visit_object,
}
use aether_client_cpp_new.Ptr.Members.{elem, All-elem, All-map}
use aether_client_cpp_new.Ptr.Trees.{
  count_of, present, count_of-reference, present-reference, linked-reference, linked-reference_self,
  AllSound-reference,
}
use aether_client_cpp_new.Ptr.Visits.{
  missing, missing-le, missing-lt, targets, targets_of, IsClosed, reached, Grown, Grown-none,
  Grown-append, clash, not_before,
}

abbrev pub marked : ℕ → Visit → Visit
marked k s = record s { visited = k ∷ s.visited }

module _ (h : Heap) (objects : List ℕ) where
  -- the outcome of a visit of an object, or of pointers of the object `p`
  pub record Outcome (p : ℕ) (s : Visit) (ts : List ℕ) (o : Option Visit) : Type 0 where
    pub after : Visit
    pub visited_objects : List ℕ
    pub result : o ≡ some after
    pub grown : Grown h objects p s after visited_objects ts

  -- what a finished visit of the pointers of `a` amounts to for a visit of `a`
  entered :
      (p a : ℕ) (s s' : Visit) (es : List ℕ)
      → elem a objects ≡ true
      → reached h objects s a ≡ false
      → present s.obj_map a ≡ true
      → Grown h objects a (marked (object_key h a) s) s' es (targets_of h a)
      → Grown h objects p s s' (a ∷ es) []
  entered p a s s' es member away there g = record {
    nodup = (
      elim (Bool-cases (elem a es)) [
        | inr f ↦ f
        | inl f ↦ absurd (clash _ (ground arith) (All-elem _ a es g.fresh f))
      ],
      g.nodup,
    );
    fresh = (
      away,
      All-map _ _ es
          (λ e f. not_before h objects s (marked (object_key h a) s) e (λ k m. ground (arith, m)) f)
          g.fresh,
    );
    inside = (member, g.inside);
    old = λ k e. g.old k (ground (arith, e));
    seen = ((g.old (object_key h a) (ground arith), g.entries a there), g.seen);
    closed = (g.followed, g.closed);
    followed = tt;
    links = λ e t l. g.links e t l;
    entries = λ z l. g.entries z l;
    counts = λ z. omega (arith, g.counts z);
    sound = λ v. g.sound v;
  }

  -- a reference that is counted, and what is done behind it
  referred :
      (p q t : ℕ) (s s1 s' : Visit) (es : List ℕ)
      → present s.obj_map p ≡ true
      → elem t objects ≡ true
      → s1.obj_map ≡ (count_reference h p t s).obj_map
      → ((k : ℕ) → elem k s.visited ≡ true → elem k s1.visited ≡ true)
      → Grown h objects q s1 s' es []
      → Grown h objects p s s' es (t ∷ [])
  referred p q t s s1 s' es there member e later g = record {
    nodup = g.nodup;
    fresh = All-map _ _ es (λ x f. not_before h objects s s1 x later f) g.fresh;
    inside = g.inside;
    old = λ j m. g.old j (later j m);
    seen = g.seen;
    closed = g.closed;
    followed = (g.links p t (rw e (linked-reference_self h p t s there)), tt);
    links = λ x c l. g.links x c (rw e (linked-reference h p t s x c l));
    entries = λ z l. g.entries z (rw e (present-reference h p t s z ∙ ground (arith, l)));
    counts = λ z.
        let count : count_of s1.obj_map z ≡ count_of s.obj_map z + (if t == z then 1 else 0) =
          ap (λ m. count_of m z) e ∙ count_of-reference h p t s z in
        omega (arith, g.counts z, count);
    sound = λ v. g.sound (rw e (AllSound-reference h objects p t s member v));
  }

  joined :
      (p : ℕ) (s s1 s2 : Visit) (es es' ts ts' : List ℕ) (o : Option Visit)
      → Grown h objects p s s1 es ts
      → Grown h objects p s1 s2 es' ts'
      → o ≡ some s2
      → Outcome p s (ts ++ ts') o
  joined p s s1 s2 es es' ts ts' o g g' e = record {
    after = s2;
    visited_objects = es ++ es';
    result = e;
    grown = Grown-append h objects p s s1 s2 es es' ts ts' g g';
  }

  marked_old :
      (p t k : ℕ) (s : Visit) (j : ℕ)
      → elem j s.visited ≡ true
      → elem j (marked k (count_reference h p t s)).visited ≡ true
  unfolding count_reference
  marked_old p t k s j e = ground (arith, e)

  pointer_skipped :
      (go : ℕ → Visit → Option Visit) (k p t : ℕ) (s : Visit)
      → elem k s.visited ≡ true
      → visit_pointer go k t (count_reference h p t s) ≡ some (count_reference h p t s)
  unfolding visit_pointer count_reference
  pointer_skipped go k p t s e = rw e refl

  pointer_followed :
      (go : ℕ → Visit → Option Visit) (k p t : ℕ) (s : Visit)
      → elem k s.visited ≡ false
      → visit_pointer go k t (count_reference h p t s) ≡ go t (marked k (count_reference h p t s))
  unfolding visit_pointer count_reference
  pointer_followed go k p t s e = rw e refl

  -- what is asked of a visit of an object with some fuel
  abbrev pub Enters : ℕ → Type 0
  Enters fuel =
      (p a : ℕ) (s : Visit)
      → elem a objects ≡ true
      → present s.obj_map a ≡ true
      → missing (reached h objects s) objects < fuel
      → (out : Outcome p s [] (visit_object h fuel a s)) × (reached h objects s a ≡ false
          → elem a out.visited_objects ≡ true)

  abbrev left : Visit → ℕ
  left s = missing (reached h objects s) objects

  -- one pointer, with its object
  Outcome-pointer :
      (fuel : ℕ)
      → Enters fuel
      → (p k t : ℕ) (s : Visit) → present s.obj_map p ≡ true
      → elem t objects ≡ true
      → left s < fuel
      → Outcome p s (t ∷ []) (visit_pointer (visit_object h fuel) k t (count_reference h p t s))
  Outcome-pointer fuel ih p k t s there member enough = elim (Bool-cases (elem k s.visited)) [
    | inl e ↦
        let s1 = count_reference h p t s in
        record {
          after = s1;
          visited_objects = [];
          result = pointer_skipped (visit_object h fuel) k p t s e;
          grown =
              referred p p t s s1 s1 [] there member refl (λ j m. unfold count_reference in m)
                (Grown-none h objects p s1);
        }
    | inr e ↦
        let s1 = marked k (count_reference h p t s) in
        let (out, _) = ih t t s1 member (present-reference h p t s t ∙ ground arith) (
          omega (
            arith,
            enough,
            missing-le (reached h objects s) (reached h objects s1) objects
                (λ a m. marked_old p t k s (object_key h a) m),
          )) in
        record {
          after = out.after;
          visited_objects = out.visited_objects;
          result = pointer_followed (visit_object h fuel) k p t s e ∙ out.result;
          grown =
              referred p t t s s1 out.after out.visited_objects there member refl
                (λ j m. marked_old p t k s j m) out.grown;
        }
  ]

  Option-cases : (o : Option ℕ) → (o ≡ none) ⊎ ((t : ℕ) × (o ≡ some t))
  Option-cases none = inl refl
  Option-cases (some t) = inr (t, refl)

  missing-Grown :
      (p : ℕ) (s s' : Visit) (es ts : List ℕ) → Grown h objects p s s' es ts → left s' ≤ left s
  missing-Grown p s s' es ts g =
      missing-le (reached h objects s) (reached h objects s') objects
        (λ a e. g.old (object_key h a) e)

  -- all pointers of an object
  Outcome-fields :
      (fuel : ℕ)
      → Enters fuel
      → (p : ℕ) (fs : List Field) (s : Visit) → present s.obj_map p ≡ true
      → All (λ t. elem t objects ≡ true) (targets h fs)
      → left s < fuel
      → Outcome p s (targets h fs) (visit_fields (visit_object h fuel) h p fs s)
  unfolding visit_fields
  Outcome-fields fuel ih p [] s there inside enough = record {
    after = s;
    visited_objects = [];
    result = refl;
    grown = Grown-none h objects p s;
  }
  Outcome-fields fuel ih p (f ∷ fs) s there inside enough = elim (Option-cases (get h f.pointer)) [
    | inl e ↦
        rw (e, visit_fields, targets)
          (Outcome-fields fuel ih p fs s there (rw (e, targets) at inside) enough)
    | inr (t, e) ↦
        let all : All (λ t. elem t objects ≡ true) (t ∷ targets h fs) = rw (e, targets) at inside in
        let first = Outcome-pointer fuel ih p (field_key f) t s there all.0 enough in
        let rest = Outcome-fields fuel ih p fs first.after (first.grown.entries p there) all.1 (
          omega (
            arith,
            enough,
            missing-Grown p s first.after first.visited_objects (t ∷ []) first.grown,
          )) in
        rw (e, visit_fields, targets)
          (rw first.result (
            joined p s first.after rest.after first.visited_objects rest.visited_objects (t ∷ [])
              (targets h fs) _ first.grown rest.grown rest.result))
  ]

  pub Enters-fuel : IsClosed h objects → (fuel : ℕ) → Enters fuel
  unfolding visit_object
  Enters-fuel closed zero p a s m there b = absurd (omega arith)
  Enters-fuel closed (suc fuel) p a s m there b = elim (Bool-cases (reached h objects s a)) [
    | inl e ↦ (
      record {
        after = s;
        visited_objects = [];
        result = rw e refl;
        grown = Grown-none h objects p s;
      },
      λ f. absurd (clash _ e f),
    )
    | inr e ↦
        let k = object_key h a in
        let fields =
          Outcome-fields fuel (Enters-fuel closed fuel) a (h a).fields (marked k s) there
            (closed a m)
            (omega (
              arith,
              b,
              missing-lt (reached h objects s) (reached h objects (marked k s)) a objects
                  (λ x f. ground (arith, f)) m e (ground arith),
            )) in
        let g = entered p a s fields.after fields.visited_objects m e there fields.grown in
        (
          record {
            after = fields.after;
            visited_objects = a ∷ fields.visited_objects;
            result = rw e fields.result;
            grown = g;
          },
          λ f. ground arith,
        )
  ]
