-- ===== src/Telemetry/Totals.antt =====
-- What all statistics of a store hold together, compared with a ledger of what the program did.
use aether_client_cpp_new.Prelude.{
  ℕ, suc, ◌%◌, ◌^◌, ◌≡◌, refl, ap, ◌∙◌, arith, List, append-nil, Bool-cases, inl, inr,
}
use aether_client_cpp_new.FileSystem.{find}
use aether_client_cpp_new.Telemetry.{
  new_statistics, StatisticsStore, get, make, rotate, is_current_full,
}
use aether_client_cpp_new.Telemetry.Trap.{metric_or_new}
use aether_client_cpp_new.Telemetry.Changes.{metric_at, IsStore, get-statistics}
use aether_client_cpp_new.Telemetry.Sums.{total, highest, gather, total-eq, highest-eq, gather-eq}

-- For each index how often it was counted, the durations' sum and the longest, and the log's entries
-- in their order.
pub record Ledger : Type 0 where
  pub counts : ℕ → ℕ
  pub sums : ℕ → ℕ
  pub longest : ℕ → ℕ
  pub entries : List (List ℕ)

-- All statistics together hold what the ledger says, the 32-bit sums modulo 2 to the power of 32.
pub record Holds (s : StatisticsStore) (t : Ledger) : Type 0 where
  pub counts :
      (i : ℕ)
      → total (λ u. (metric_at s u i).invocations_count) s.made % 2 ^ 32 ≡ t.counts i % 2 ^ 32
  pub sums :
      (i : ℕ) → total (λ u. (metric_at s u i).sum_duration) s.made % 2 ^ 32 ≡ t.sums i % 2 ^ 32
  pub longest : (i : ℕ) → highest (λ u. (metric_at s u i).max_duration) s.made ≡ t.longest i
  pub least : (u i : ℕ) → (metric_at s u i).min_duration ≡ 0
  pub entries : gather (λ u. (s.statistics u).logs) s.made ≡ t.entries

-- The same metrics, with other logs, and no more made.
pub Holds-logs :
    (s s' : StatisticsStore) (t : Ledger) (es : List (List ℕ))
    → s'.made ≡ s.made
    → ((u i : ℕ) → metric_at s' u i ≡ metric_at s u i)
    → gather (λ u. (s'.statistics u).logs) s.made ≡ es
    → Holds s t
    → Holds s' (record t { entries = es })
Holds-logs s s' t es n m l h = record {
  counts = λ i. rw n (
      ap (λ (x : ℕ). x % 2 ^ 32) (total-eq _ _ s.made (λ u. ap (λ x. x.invocations_count) (m u i)))
      ∙ h.counts i);
  sums = λ i. rw n (
      ap (λ (x : ℕ). x % 2 ^ 32) (total-eq _ _ s.made (λ u. ap (λ x. x.sum_duration) (m u i)))
      ∙ h.sums i);
  longest = λ i. rw n (highest-eq _ _ s.made (λ u. ap (λ x. x.max_duration) (m u i)) ∙ h.longest i);
  least = λ u i. ap (λ x. x.min_duration) (m u i) ∙ h.least u i;
  entries = rw n l;
}

pub Holds-same :
    (s s' : StatisticsStore) (t : Ledger)
    → s'.made ≡ s.made
    → ((u i : ℕ) → metric_at s' u i ≡ metric_at s u i)
    → ((u : ℕ) → (s'.statistics u).logs ≡ (s.statistics u).logs)
    → Holds s t
    → Holds s' t
Holds-same s s' t n m l h =
    Holds-logs s s' t t.entries n m (gather-eq _ _ s.made (λ u b. l u) ∙ h.entries) h

-- One more was made, which is empty.
Holds-made :
    (s s' : StatisticsStore) (t : Ledger)
    → IsStore s
    → s'.made ≡ suc s.made
    → ((u : ℕ) → s'.statistics u ≡ s.statistics u)
    → Holds s t
    → Holds s' t
unfolding total highest gather metric_or_new find
Holds-made s s' t v n m h =
    let empty : s'.statistics s.made ≡ new_statistics = m s.made ∙ v.unmade s.made (omega arith) in
    record {
      counts = λ i. rw n (
          rw empty (
            ground (
              arith,
              h.counts i,
              total-eq (λ u. (metric_at s u i).invocations_count)
                  (λ u. (metric_at s' u i).invocations_count) s.made
                  (λ u. ap (λ x. (metric_or_new (find i x.metrics)).invocations_count) (m u)),
            )));
      sums = λ i. rw n (
          rw empty (
            ground (
              arith,
              h.sums i,
              total-eq (λ u. (metric_at s u i).sum_duration) (λ u. (metric_at s' u i).sum_duration)
                  s.made (λ u. ap (λ x. (metric_or_new (find i x.metrics)).sum_duration) (m u)),
            )));
      longest = λ i. rw n (
          rw empty (
            ground (
              arith,
              h.longest i,
              highest-eq (λ u. (metric_at s u i).max_duration)
                  (λ u. (metric_at s' u i).max_duration) s.made
                  (λ u. ap (λ x. (metric_or_new (find i x.metrics)).max_duration) (m u)),
            )));
      least = λ u i. ap (λ x. (metric_or_new (find i x.metrics)).min_duration) (m u) ∙ h.least u i;
      entries = rw n (
          rw empty (
            append-nil (gather (λ u. (s'.statistics u).logs) s.made)
            ∙ gather-eq _ _ s.made (λ u b. ap (λ x. x.logs) (m u))
            ∙ h.entries));
    }

pub get-Holds : (s : StatisticsStore) (t : Ledger) → IsStore s → Holds s t → Holds (get s) t
unfolding get rotate make
get-Holds s t v h = elim (Bool-cases (is_current_full s)) [
  | inl e ↦ Holds-made s (get s) t v (rw e (omega arith)) (λ u. get-statistics s u v) h
  | inr e ↦
      Holds-same s (get s) t (rw e refl)
        (λ u i. ap (λ x. metric_or_new (find i x.metrics)) (get-statistics s u v))
        (λ u. ap (λ x. x.logs) (get-statistics s u v)) h
]
