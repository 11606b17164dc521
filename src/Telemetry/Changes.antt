-- ===== src/Telemetry/Changes.antt =====
-- What the operations of aether/tele/traps/statistics_trap.cpp change in the metrics.
use aether_client_cpp_new.Prelude.{
  ℕ, ◌+◌, ◌≤◌, ◌<◌, ◌≡◌, refl, sym, ap, ◌∙◌, arith, false, ◌==◌, if◌then◌else◌, Bool-cases, inl,
  inr,
}
use aether_client_cpp_new.FileSystem.{find}
use aether_client_cpp_new.FileSystem.Maps.{find-assign}
use aether_client_cpp_new.Telemetry.{
  Metric, Statistics, new_statistics, StatisticsStore, modify, make, rotate, get, is_current_full,
}
use aether_client_cpp_new.Telemetry.Trap.{metric_or_new, modify_metric}

-- the metric of an index in one of the statistics, a new one if it is not there
abbrev pub metric_at : StatisticsStore → ℕ → ℕ → Metric
metric_at s u i = metric_or_new (find i (s.statistics u).metrics)

-- The current statistics are the last that were made, and those that will be made are empty.
pub record IsStore (s : StatisticsStore) : Type 0 where
  pub current : s.current + 1 ≡ s.made
  pub unmade : (u : ℕ) → s.made ≤ u → s.statistics u ≡ new_statistics

pub get-statistics :
    (s : StatisticsStore) (u : ℕ) → IsStore s → (get s).statistics u ≡ s.statistics u
unfolding get rotate make
get-statistics s u v = elim (Bool-cases (is_current_full s)) [
  | inr e ↦ rw e refl
  | inl e ↦ rw e (elim (Bool-cases (u == s.made)) [
    | inl f ↦ rw f (sym (v.unmade u (ground (arith, f))))
    | inr f ↦ rw f refl
  ])
]

pub get-made : (s : StatisticsStore) → (s.made ≤ (get s).made) × ((get s).made ≤ s.made + 1)
unfolding get rotate make
get-made s = ground arith

pub get-IsStore : (s : StatisticsStore) → IsStore s → IsStore (get s)
unfolding get rotate make
get-IsStore s v = record {
  current = ground (arith, v.current);
  unmade = λ u b. get-statistics s u v ∙ v.unmade u (omega (arith, (get-made s).0, b));
}

pub metric_at-modify :
    (k j : ℕ) (g : Metric → Metric) (s : StatisticsStore) (u i : ℕ)
    → metric_at (modify k (modify_metric j g) s) u i ≡ (
        if u == k
        then (if j == i then g (metric_at s u i) else metric_at s u i)
        else metric_at s u i)
unfolding modify modify_metric metric_or_new
metric_at-modify k j g s u i = elim (Bool-cases (u == k)) [
  | inr e ↦ rw e refl
  | inl e ↦ rw e (
      rw
        (find-assign j i (g (metric_or_new (find j (s.statistics u).metrics)))
          (s.statistics u).metrics)
        (elim (Bool-cases (j == i)) [
          | inr f ↦ rw f refl
          | inl f ↦ rw f (
              ap (λ (n : ℕ). g (metric_or_new (find n (s.statistics u).metrics)))
                (ground (arith, f)))
        ]))
]

pub modify-IsStore :
    (k : ℕ) (g : Statistics → Statistics) (s : StatisticsStore)
    → k < s.made
    → IsStore s
    → IsStore (modify k g s)
unfolding modify
modify-IsStore k g s b v = record {
  current = v.current;
  unmade = λ u h. let other : (u == k) ≡ false = ground arith in rw other (v.unmade u h);
}
