-- ===== src/Actions/Shares.antt =====
-- The counters of action_registry.cpp and the shares that hold its nodes.
use aether_client_cpp_new.Prelude.{
  ℕ, ◌+◌, ◌-◌, ◌<◌, ◌≡◌, refl, ap, ◌∙◌, arith, Option, none, some, List, [], ◌∷◌, ◌++◌, ◌==◌,
  ==_iff, if◌then◌else◌, Bool-cases, inl, inr,
}
use mathlib.Core.Option.{none-ne-some}
use aether_client_cpp_new.Actions.{Index, IndexShare, find, modify, erase_node, retain, release}

-- the counter of a node, 0 if there is none
abbrev pub counter_of : Option Index → ℕ
counter_of none = 0
counter_of (some index) = index.counter

abbrev pub counter_at : ℕ → List (ℕ × Index) → ℕ
counter_at it list = counter_of (find it list)

-- how many shares hold a node
abbrev pub holders : ℕ → List IndexShare → ℕ
holders it [] = 0
holders it (s ∷ shares) =
    (if s.registry then (if s.it == it then 1 else 0) else 0) + holders it shares

abbrev pub one_at : ℕ → ℕ → ℕ
one_at it k = if it == k then 1 else 0

module _ (k it : ℕ) where
  pub counter_at-retain :
      (index : Index) (list : List (ℕ × Index))
      → find it list ≡ some index
      → counter_at k (retain it list) ≡ counter_at k list + one_at it k
  unfolding retain find modify
  counter_at-retain index [] h = absurd (none-ne-some index h)
  counter_at-retain index ((n, x) ∷ more) h = ground (arith, counter_at-retain index more)

  counter_at-lower :
      (list : List (ℕ × Index))
      → counter_at k (modify it (λ index. record index { counter = index.counter - 1 }) list)
        ≡ counter_at k list - one_at it k
  unfolding find modify
  counter_at-lower [] = omega arith
  counter_at-lower ((n, x) ∷ more) = ground (arith, counter_at-lower more)

  pub counter_at-clear :
      (list : List (ℕ × Index))
      → counter_at k (modify it (λ index. record index { action = none }) list) ≡ counter_at k list
  unfolding find modify
  counter_at-clear [] = refl
  counter_at-clear ((n, x) ∷ more) = ground (arith, counter_at-clear more)

  counter_at-erase_node :
      (list : List (ℕ × Index))
      → counter_at k (erase_node it list) ≡ (if it == k then 0 else counter_at k list)
  unfolding find erase_node
  counter_at-erase_node [] = ground arith
  counter_at-erase_node ((n, x) ∷ more) = ground (arith, counter_at-erase_node more)

  pub counter_at-append :
      (list : List (ℕ × Index)) (action : Option ℕ)
      → counter_at k (list ++ ((it, record { counter = 0; action = action }) ∷ []))
        ≡ counter_at k list
  unfolding find
  counter_at-append [] action = ground arith
  counter_at-append ((n, x) ∷ more) action = ground (arith, counter_at-append more action)

pub counter_at-release :
    (k it : ℕ) (list : List (ℕ × Index))
    → counter_at k (release it list) ≡ counter_at k list - one_at it k
unfolding release
counter_at-release k it list = by_index (find it list') refl
  where
    list' : List (ℕ × Index)
    list' = modify it (λ index. record index { counter = index.counter - 1 }) list

    by_index :
        (o : Option Index)
        → find it list' ≡ o
        → counter_at k (elim o [
          | none ↦ list'
          | some index ↦ if index.counter == 0 then erase_node it list' else list'
        ])
          ≡ counter_at k list - one_at it k
    by_index none e = counter_at-lower k it list
    by_index (some index) e = elim (Bool-cases (index.counter == 0)) [
      | inl h ↦
          let last : index.counter ≡ 0 = (==_iff index.counter 0).0 h in
          let nothing : counter_at it list' ≡ 0 = ap counter_of e ∙ last in
          rw h (elim (Bool-cases (it == k)) [
            | inl same ↦
                let here = ap (λ n. counter_at n list') ((==_iff it k).0 same) in
                ground (arith, counter_at-erase_node k it list', counter_at-lower k it list)
            | inr other ↦
                ground (arith, counter_at-erase_node k it list', counter_at-lower k it list)
          ])
      | inr h ↦ rw h (counter_at-lower k it list)
    ]

pub found :
    (it : ℕ) (list : List (ℕ × Index))
    → 0 < counter_at it list
    → (index : Index) × (find it list ≡ some index)
found it list h = by_index (find it list) refl h
  where
    by_index :
        (o : Option Index)
        → find it list ≡ o
        → 0 < counter_of o
        → (index : Index) × (find it list ≡ some index)
    by_index none e h = absurd (omega arith)
    by_index (some index) e h = (index, e)

pub found_last :
    (it : ℕ) (list : List (ℕ × Index)) (last : Index)
    → (index : Index) × (find it (list ++ ((it, last) ∷ [])) ≡ some index)
unfolding find
found_last it [] last = (last, ground arith)
found_last it ((n, x) ∷ more) last = elim (Bool-cases (n == it)) [
  | inl h ↦ (x, rw h refl)
  | inr h ↦ let (index, e) = found_last it more last in (index, rw h e)
]
