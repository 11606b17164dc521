-- ===== src/Ptr/Reaching.antt =====
-- `IsReachable` of aether/obj/ptr_management.cpp ends, and misses no chain of children.
use aether_client_cpp_new.Prelude.{
  ℕ, zero, suc, ◌<◌, ◌≡◌, refl, subst, ap, ◌∙◌, arith, Bool, true, false, Option, some, List, [],
  ◌∷◌, All, ◌==◌, Bool-cases, ◌⊎◌, inl, inr, length,
}
use aether_client_cpp_new.Ptr.{ObjMap, children_of, scan, is_reachable}
use aether_client_cpp_new.Ptr.Members.{elem, All-elem, All-map}
use aether_client_cpp_new.Ptr.Visits.{missing, missing_none, missing-le, missing-lt, clash}

module _ (m : ObjMap) (objects : List ℕ) (p : ℕ)
    (inside : (a : ℕ) → All (λ c. elem c objects ≡ true) (children_of m a)) where
  -- the children are visited, and `p` is not among them
  abbrev pub Passed : List ℕ → List ℕ → Type 0
  Passed visited cs = All (λ c. ((c == p) ≡ false) × (elem c visited ≡ true)) cs

  -- What a search makes of the visited objects: those that it adds have passed, if it does not find `p`.
  pub record Explored (v : List ℕ) (o : Option (Bool × List ℕ)) : Type 0 where
    pub found : Bool
    pub after : List ℕ
    pub result : o ≡ some (found, after)
    pub old : (x : ℕ) → elem x v ≡ true → elem x after ≡ true
    pub closed :
        found ≡ false
        → (x : ℕ) → elem x after ≡ true
        → (elem x v ≡ true) ⊎ Passed after (children_of m x)

  Passed-old :
      (v v' cs : List ℕ)
      → ((x : ℕ) → elem x v ≡ true → elem x v' ≡ true)
      → Passed v cs
      → Passed v' cs
  Passed-old v v' cs old = All-map _ _ cs (λ c (e, k). (e, old c k))

  abbrev Finds : ℕ → Type 0
  Finds fuel =
      (a : ℕ) (v : List ℕ)
      → elem a objects ≡ true
      → elem a v ≡ false
      → missing (λ x. elem x v) objects < fuel
      → (out : Explored v (is_reachable m p fuel a v)) × (out.found ≡ false
          → elem a out.after ≡ true)

  abbrev ScanOutcome : List ℕ → List ℕ → Option (Bool × List ℕ) → Type 0
  ScanOutcome v cs o = (out : Explored v o) × (out.found ≡ false → Passed out.after cs)

  -- a search that did not find `p`, and the rest of the loop
  then_rest :
      (v v' : List ℕ) (c : ℕ) (cs : List ℕ) (o : Option (Bool × List ℕ))
      → ((x : ℕ) → elem x v ≡ true → elem x v' ≡ true)
      → ((x : ℕ) → elem x v' ≡ true → (elem x v ≡ true) ⊎ Passed v' (children_of m x))
      → (c == p) ≡ false
      → elem c v' ≡ true
      → ScanOutcome v' cs o
      → ScanOutcome v (c ∷ cs) o
  then_rest v v' c cs o old closed other there (out, passed) = (
    record {
      found = out.found;
      after = out.after;
      result = out.result;
      old = λ x e. out.old x (old x e);
      closed = λ f x e. elim (out.closed f x e) [
        | inr g ↦ inr g
        | inl g ↦ elim (closed x g) [
          | inl k ↦ inl k
          | inr k ↦ inr (Passed-old v' out.after (children_of m x) out.old k)
        ]
      ];
    },
    λ f. ((other, out.old c there), passed f),
  )

  same_outcome :
      (v cs : List ℕ) (o o' : Option (Bool × List ℕ))
      → o ≡ o'
      → ScanOutcome v cs o'
      → ScanOutcome v cs o
  same_outcome v cs o o' e (out, passed) = (
    record {
      found = out.found;
      after = out.after;
      result = e ∙ out.result;
      old = out.old;
      closed = out.closed;
    },
    passed,
  )

  stops_here :
      (v v' cs : List ℕ)
      → ((x : ℕ) → elem x v ≡ true → elem x v' ≡ true)
      → ScanOutcome v cs (some (true, v'))
  stops_here v v' cs old = (
    record {
      found = true;
      after = v';
      result = refl;
      old = old;
      closed = λ f x e. absurd (clash _ refl f);
    },
    λ f. absurd (clash _ refl f),
  )

  module _ (go : ℕ → List ℕ → Option (Bool × List ℕ)) (c : ℕ) (cs v : List ℕ) where
    scan_found : (c == p) ≡ true → scan go p (c ∷ cs) v ≡ some (true, v)
    unfolding scan
    scan_found e = rw e refl

    scan_visited : (c == p) ≡ false → elem c v ≡ true → scan go p (c ∷ cs) v ≡ scan go p cs v
    unfolding scan
    scan_visited e f = rw e (rw f refl)

    scan_deeper :
        (v' : List ℕ)
        → (c == p) ≡ false
        → elem c v ≡ false
        → go c v ≡ some (true, v')
        → scan go p (c ∷ cs) v ≡ some (true, v')
    unfolding scan
    scan_deeper v' e f g = rw e (rw f (rw g refl))

    scan_on :
        (v' : List ℕ)
        → (c == p) ≡ false
        → elem c v ≡ false
        → go c v ≡ some (false, v')
        → scan go p (c ∷ cs) v ≡ scan go p cs v'
    unfolding scan
    scan_on v' e f g = rw e (rw f (rw g refl))

  scan-Explored :
      (fuel : ℕ)
      → Finds fuel
      → (cs v : List ℕ) → All (λ c. elem c objects ≡ true) cs
      → missing (λ x. elem x v) objects < fuel
      → ScanOutcome v cs (scan (is_reachable m p fuel) p cs v)
  scan-Explored fuel ih [] v h b = (
    record {
      found = false;
      after = v;
      result = unfold scan in refl;
      old = λ x e. e;
      closed = λ f x e. inl e;
    },
    λ f. tt,
  )
  scan-Explored fuel ih (c ∷ cs) v (e, h) b =
      let go = is_reachable m p fuel in
      elim (Bool-cases (c == p)) [
        | inl f ↦
            same_outcome v (c ∷ cs) _ _ (scan_found go c cs v f)
              (stops_here v v (c ∷ cs) (λ x k. k))
        | inr f ↦ elim (Bool-cases (elem c v)) [
          | inl g ↦
              same_outcome v (c ∷ cs) _ _ (scan_visited go c cs v f g) (
                then_rest v v c cs _ (λ x k. k) (λ x k. inl k) f g (scan-Explored fuel ih cs v h b))
          | inr g ↦
              let (out, reaches) = ih c v e g b in
              elim (Bool-cases out.found) [
                | inl k ↦
                    same_outcome v (c ∷ cs) _ _
                      (scan_deeper go c cs v out.after f g
                        (out.result ∙ ap (λ x. some (x, out.after)) k))
                      (stops_here v out.after (c ∷ cs) out.old)
                | inr k ↦
                    same_outcome v (c ∷ cs) _ _
                      (scan_on go c cs v out.after f g
                        (out.result ∙ ap (λ x. some (x, out.after)) k))
                      (then_rest v out.after c cs _ out.old (out.closed k) f (reaches k) (
                        scan-Explored fuel ih cs out.after h (
                          omega (
                            arith,
                            b,
                            missing-le (λ x. elem x v) (λ x. elem x out.after) objects out.old,
                          ))))
              ]
        ]
      ]

  Finds-fuel : (fuel : ℕ) → Finds fuel
  unfolding is_reachable
  Finds-fuel zero a v e f b = absurd (omega arith)
  Finds-fuel (suc fuel) a v e f b =
      let (out, passed) =
        scan-Explored fuel (Finds-fuel fuel) (children_of m a) (a ∷ v) (inside a) (
          omega (
            arith,
            b,
            missing-lt (λ x. elem x v) (λ x. elem x (a ∷ v)) a objects (λ x g. ground (arith, g)) e
                f (ground arith),
          )) in
      (
        record {
          found = out.found;
          after = out.after;
          result = out.result;
          old = λ x g. out.old x (ground (arith, g));
          closed = λ g x k. elim (out.closed g x k) [
            | inr l ↦ inr l
            | inl l ↦ elim (Bool-cases (a == x)) [
              | inl same ↦
                  let here : a ≡ x = ground (arith, same) in
                  inr (subst (λ (y : ℕ). Passed out.after (children_of m y)) here (passed g))
              | inr other ↦ inl (rw other at l)
            ]
          ];
        },
        λ g. out.old a (ground arith),
      )

  -- a chain of children that ends at `p`
  pub data Chain : ℕ → Type 0 where
    last : {a : ℕ} → elem p (children_of m a) ≡ true → Chain a
    link : {a : ℕ} (c : ℕ) → elem c (children_of m a) ≡ true → Chain c → Chain a

  -- a search from a fresh object ends, and finds `p` if there is a chain
  pub record Search (fuel a : ℕ) : Type 0 where
    pub found : Bool
    pub after : List ℕ
    pub result : is_reachable m p fuel a [] ≡ some (found, after)
    pub complete : Chain a → found ≡ true

  no-Chain :
      (v : List ℕ)
      → ((x : ℕ) → elem x v ≡ true → Passed v (children_of m x))
      → (a : ℕ) → elem a v ≡ true
      → Chain a
      → ⊥
  no-Chain v closed a e (last f) =
      clash _ (ground arith) (All-elem _ p (children_of m a) (closed a e) f).0
  no-Chain v closed a e (link c f more) =
      no-Chain v closed c (All-elem _ c (children_of m a) (closed a e) f).1 more

  pub Search-ends : (fuel a : ℕ) → elem a objects ≡ true → length objects < fuel → Search fuel a
  Search-ends fuel a e b =
      let (out, there) =
        Finds-fuel fuel a [] e refl (omega (arith, b, missing_none (λ x. elem x []) objects)) in
      record {
        found = out.found;
        after = out.after;
        result = out.result;
        complete = λ chain. elim (Bool-cases out.found) [
          | inl f ↦ f
          | inr f ↦ absurd (
              no-Chain out.after
                (λ x g. elim (out.closed f x g) [ inl k ↦ absurd (clash _ k refl) | inr k ↦ k ]) a
                (there f) chain)
        ];
      }
