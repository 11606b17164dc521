-- ===== src/Telemetry/Merging.antt =====
-- `Append` and `Merge` of aether/tele/traps/statistics_trap.cpp.
use aether_client_cpp_new.Prelude.{
  ℕ, ◌+◌, ◌%◌, ◌^◌, ◌<◌, ◌≤◌, ◌≡◌, ◌⊎◌, refl, sym, subst, ap, ◌∙◌, arith, true, false, Option, none,
  some, [], ◌∷◌, ◌++◌, All, ◌==◌, Bool-cases, inl, inr,
}
use aether_client_cpp_new.FileSystem.{Map, find, assign, keys}
use aether_client_cpp_new.FileSystem.Maps.{Ascending, find-assign}
use aether_client_cpp_new.Telemetry.{
  Metric, combine, append_metric, append_metrics, append, Statistics, StatisticsStore, modify, make,
  get, take_prev, statistics_at, merge,
}
use aether_client_cpp_new.Telemetry.Changes.{IsStore, get-IsStore}

-- the metric of an index in two statistics together
abbrev merged : Option Metric → Option Metric → Option Metric
merged none o = o
merged (some m) none = some m
merged (some m) (some n) = some (combine m n)

find_below : (i : ℕ) (m : Map Metric) → All (λ j. i < j) (keys m) → find i m ≡ none
unfolding find keys
find_below i [] h = refl
find_below i ((j, v) ∷ m) (b, h) =
    let other : (j == i) ≡ false = ground arith in rw other (find_below i m h)

find-append_metrics :
    (i : ℕ) (a b : Map Metric)
    → Ascending (keys b)
    → find i (append_metrics a b) ≡ merged (find i a) (find i b)
unfolding find keys append_metrics
find-append_metrics i a [] h = none_last (find i a)
  where
    none_last : (o : Option Metric) → o ≡ merged o none
    none_last none = refl
    none_last (some m) = refl
find-append_metrics i a ((j, m) ∷ more) (below, h) =
    find-append_metrics i (assign j (append_metric (find j a) m) a) more h
    ∙ ap (λ o. merged o (find i more)) (find-assign j i (append_metric (find j a) m) a)
    ∙ elim (Bool-cases (j == i)) [
      | inr e ↦ rw e refl
      | inl e ↦
          let same : j ≡ i = ground (arith, e) in
          let last : find i more ≡ none = rw (← same) (find_below j more below) in
          rw (e, last) (rw same (unfold append_metric in both (find i a) m))
    ]
  where
    both : (o : Option Metric) (m : Metric) → some (append_metric o m) ≡ merged o (some m)
    both none m = refl
    both (some n) m = refl

-- taking over the newer store's previous statistics leaves those that were made alone
take_prev-statistics :
    (o : Option Statistics) (s : StatisticsStore) (u : ℕ)
    → u < s.made
    → (take_prev o s).statistics u ≡ s.statistics u
unfolding take_prev make modify
take_prev-statistics none s u b = refl
take_prev-statistics (some x) s u b =
    let other : (u == s.made) ≡ false = ground arith in rw other refl

take_prev-current :
    (o : Option Statistics) (s : StatisticsStore) → (take_prev o s).current ≡ s.current
unfolding take_prev make modify
take_prev-current none s = refl
take_prev-current (some x) s = refl

-- what the current statistics of a store hold
abbrev pub current_of : StatisticsStore → Statistics
current_of s = s.statistics s.current

merge-current :
    (s newer : StatisticsStore)
    → IsStore s
    → current_of (merge s newer) ≡ append (current_of (get s)) (current_of newer)
unfolding merge modify
merge-current s newer v =
    let k = (get s).current in
    let appended = modify k (λ x. append x (newer.statistics newer.current)) (get s) in
    let b : k < (get s).made = omega (arith, (get-IsStore s v).current) in
    let self : (k == k) ≡ true = ground arith in
    rw (take_prev-current (statistics_at newer.prev newer) appended)
      (take_prev-statistics (statistics_at newer.prev newer) appended k b ∙ rw self refl)

-- one of two numbers, and no greater or no smaller than either
abbrev IsGreater : ℕ → ℕ → ℕ → Type 0
IsGreater a b c = (a ≤ c) × (b ≤ c) × ((c ≡ a) ⊎ (c ≡ b))

abbrev IsSmaller : ℕ → ℕ → ℕ → Type 0
IsSmaller a b c = (c ≤ a) × (c ≤ b) × ((c ≡ a) ⊎ (c ≡ b))

-- a metric with the calls of two others
pub record IsBoth (m n both : Metric) : Type 0 where
  pub count : both.invocations_count ≡ (m.invocations_count + n.invocations_count) % 2 ^ 32
  pub sum : both.sum_duration ≡ (m.sum_duration + n.sum_duration) % 2 ^ 32
  pub longest : IsGreater m.max_duration n.max_duration both.max_duration
  pub shortest : IsSmaller m.min_duration n.min_duration both.min_duration

-- what two statistics together have of the metric of an index
abbrev pub IsMerged : Option Metric → Option Metric → Option Metric → Type 0
IsMerged none o out = out ≡ o
IsMerged (some m) none out = out ≡ some m
IsMerged (some m) (some n) none = ⊥
IsMerged (some m) (some n) (some both) = IsBoth m n both

merged-IsMerged : (o p : Option Metric) → IsMerged o p (merged o p)
unfolding combine
merged-IsMerged none p = refl
merged-IsMerged (some m) none = refl
merged-IsMerged (some m) (some n) = record {
  count = refl;
  sum = refl;
  longest = (ground arith, ground arith, ground arith);
  shortest = (ground arith, ground arith, ground arith);
}

-- Let the current statistics of a store be the last that were made, those not made yet be empty, and
-- the newer store's metrics stand in the order of their indices, as in a `std::map`. After a merge the
-- current statistics, which `Get` may have made anew, have the newer ones' logs behind their own, and for
-- each index the metric of the one that has it, or, if both have one, a metric whose count and sum are
-- the two added modulo 2 to the power of 32, whose longest time is the greater one and whose shortest
-- time the smaller one. Their size is not adjusted to what was added.
pub merge-lookup :
    (s newer : StatisticsStore)
    → IsStore s
    → Ascending (keys (current_of newer).metrics)
    → ((i : ℕ)
        → IsMerged
            (find i (current_of (get s)).metrics)
            (find i (current_of newer).metrics)
            (find i (current_of (merge s newer)).metrics))
      × ((current_of (merge s newer)).logs ≡ (current_of (get s)).logs ++ (current_of newer).logs)
      × ((current_of (merge s newer)).size ≡ (current_of (get s)).size)
unfolding append
merge-lookup s newer v h =
    let same = merge-current s newer v in
    (
      λ i.
          let there =
            ap (λ x. find i x.metrics) same
            ∙ find-append_metrics i (current_of (get s)).metrics (current_of newer).metrics h in
          subst (IsMerged (find i (current_of (get s)).metrics) (find i (current_of newer).metrics))
            (sym there)
            (merged-IsMerged (find i (current_of (get s)).metrics)
              (find i (current_of newer).metrics)),
      ap (λ x. x.logs) same,
      ap (λ x. x.size) same,
    )
