-- ===== src/Telemetry/Records.antt =====
-- What each operation of the telemetry adds to the ledger.
use aether_client_cpp_new.Prelude.{
  ℕ, suc, ◌+◌, ◌%◌, ◌^◌, ◌<◌, max, min, ◌≡◌, refl, ap, ◌∙◌, arith, [], ◌∷◌, ◌++◌, ◌==◌,
  if◌then◌else◌, Bool-cases, inl, inr,
}
use aether_client_cpp_new.FileSystem.{find}
use aether_client_cpp_new.Telemetry.{
  Metric, StatisticsStore, new_store, modify, get, update_metrics_size,
}
use aether_client_cpp_new.Telemetry.Trap.{
  MetricStream, metric_or_new, modify_metric, metric_stream, add_count, add_duration, close_metric,
}
use aether_client_cpp_new.Telemetry.Tele.{Config, Call, log_entry}
use aether_client_cpp_new.Telemetry.Changes.{metric_at, IsStore, get-IsStore, metric_at-modify}
use aether_client_cpp_new.Telemetry.Logs.{
  entry_bytes, log_entry-logs, log_entry-metrics, log_entry-made,
}
use aether_client_cpp_new.Telemetry.Sums.{
  total, highest, gather, total-eq, total_grows, highest-eq, highest_grows, gather-eq, gather_last,
}
use aether_client_cpp_new.Telemetry.Totals.{Ledger, Holds, Holds-logs, Holds-same, get-Holds}

modify_metric-logs :
    (k j : ℕ) (g : Metric → Metric) (s : StatisticsStore) (u : ℕ)
    → ((modify k (modify_metric j g) s).statistics u).logs ≡ (s.statistics u).logs
unfolding modify modify_metric
modify_metric-logs k j g s u = ground arith

pub metric_stream-Holds :
    (index : ℕ) (s : StatisticsStore) (t : Ledger)
    → IsStore s
    → Holds s t
    → Holds (metric_stream index s).1 t
unfolding metric_stream
metric_stream-Holds index s t v h =
    let k = (get s).current in
    let j = index % 2 ^ 32 in
    Holds-same (get s) (modify k (modify_metric j (λ m. m)) (get s)) t (unfold modify in refl)
      (λ u i. metric_at-modify k j (λ m. m) (get s) u i ∙ ground arith)
      (λ u. modify_metric-logs k j (λ m. m) (get s) u) (get-Holds s t v h)

abbrev counted : ℕ → Metric → Metric
counted n m = record m { invocations_count = (m.invocations_count + n) % 2 ^ 32 }

abbrev measured : ℕ → Metric → Metric
measured d m = record m {
  sum_duration = (m.sum_duration + d) % 2 ^ 32;
  max_duration = max m.max_duration d;
  min_duration = min m.min_duration d;
}

module _ (st : MetricStream) (n : ℕ) (s : StatisticsStore) (t : Ledger) (b : st.statistics < s.made)
    (h : Holds s t) where
  pub add_count-Holds :
      Holds
        (add_count st n s)
        (record t { counts = λ i. if st.index == i then t.counts i + n else t.counts i })
  unfolding add_count modify
  add_count-Holds =
      let s' = modify st.statistics (modify_metric st.index (counted n)) s in
      let at = λ (u i : ℕ). metric_at-modify st.statistics st.index (counted n) s u i in
      record {
        counts = λ i. elim (Bool-cases (st.index == i)) [
          | inl e ↦ rw e (
              total_grows (λ u. (metric_at s u i).invocations_count)
                (λ u. (metric_at s' u i).invocations_count) st.statistics n s.made (t.counts i) b
                (λ u. ground (arith, at u i, e)) (h.counts i))
          | inr e ↦ rw e (
              ap (λ (x : ℕ). x % 2 ^ 32)
                (total-eq (λ u. (metric_at s u i).invocations_count)
                  (λ u. (metric_at s' u i).invocations_count) s.made
                  (λ u. ground (arith, at u i, e)))
              ∙ h.counts i)
        ];
        sums = λ i.
            ap (λ (x : ℕ). x % 2 ^ 32)
              (total-eq (λ u. (metric_at s u i).sum_duration) (λ u. (metric_at s' u i).sum_duration)
                s.made (λ u. ground (arith, at u i)))
            ∙ h.sums i;
        longest = λ i.
            highest-eq (λ u. (metric_at s u i).max_duration) (λ u. (metric_at s' u i).max_duration)
              s.made (λ u. ground (arith, at u i))
            ∙ h.longest i;
        least = λ u i. ground (arith, at u i, h.least u i);
        entries =
            gather-eq _ _ s.made (λ u c. modify_metric-logs st.statistics st.index (counted n) s u)
            ∙ h.entries;
      }

  pub add_duration-Holds : Holds (add_duration st n s) (record t {
    sums = λ i. if st.index == i then t.sums i + n else t.sums i;
    longest = λ i. if st.index == i then max (t.longest i) n else t.longest i;
  })
  unfolding add_duration modify
  add_duration-Holds =
      let s' = modify st.statistics (modify_metric st.index (measured n)) s in
      let at = λ (u i : ℕ). metric_at-modify st.statistics st.index (measured n) s u i in
      record {
        counts = λ i.
            ap (λ (x : ℕ). x % 2 ^ 32)
              (total-eq (λ u. (metric_at s u i).invocations_count)
                (λ u. (metric_at s' u i).invocations_count) s.made (λ u. ground (arith, at u i)))
            ∙ h.counts i;
        sums = λ i. elim (Bool-cases (st.index == i)) [
          | inl e ↦ rw e (
              total_grows (λ u. (metric_at s u i).sum_duration)
                (λ u. (metric_at s' u i).sum_duration) st.statistics n s.made (t.sums i) b
                (λ u. ground (arith, at u i, e)) (h.sums i))
          | inr e ↦ rw e (
              ap (λ (x : ℕ). x % 2 ^ 32)
                (total-eq (λ u. (metric_at s u i).sum_duration)
                  (λ u. (metric_at s' u i).sum_duration) s.made (λ u. ground (arith, at u i, e)))
              ∙ h.sums i)
        ];
        longest = λ i. elim (Bool-cases (st.index == i)) [
          | inl e ↦ rw e (
              highest_grows (λ u. (metric_at s u i).max_duration)
                (λ u. (metric_at s' u i).max_duration) st.statistics n s.made (t.longest i) b
                (λ u. ground (arith, at u i, e)) (h.longest i))
          | inr e ↦ rw e (
              highest-eq (λ u. (metric_at s u i).max_duration)
                (λ u. (metric_at s' u i).max_duration) s.made (λ u. ground (arith, at u i, e))
              ∙ h.longest i)
        ];
        least = λ u i. ground (arith, at u i, h.least u i);
        entries =
            gather-eq _ _ s.made (λ u c. modify_metric-logs st.statistics st.index (measured n) s u)
            ∙ h.entries;
      }

pub close_metric-Holds :
    (st : MetricStream) (s : StatisticsStore) (t : Ledger) → Holds s t → Holds (close_metric st s) t
unfolding close_metric modify update_metrics_size
close_metric-Holds st s t h =
    Holds-same s (close_metric st s) t (ground arith)
      (λ u i. ap (λ x. metric_or_new (find i x)) (same u)) (λ u. ground arith) h
  where
    same : (u : ℕ) → ((close_metric st s).statistics u).metrics ≡ (s.statistics u).metrics
    same u = ground arith

pub log_entry-Holds :
    (c : Config) (a : Call) (s : StatisticsStore) (t : Ledger)
    → IsStore s
    → Holds s t
    → Holds (log_entry c a s) (record t { entries = t.entries ++ entry_bytes c a ∷ [] })
log_entry-Holds c a s t v h =
    let got = get-Holds s t v h in
    let last : (get s).made ≡ suc (get s).current = omega (arith, (get-IsStore s v).current) in
    Holds-logs (get s) (log_entry c a s) t (t.entries ++ entry_bytes c a ∷ [])
      (log_entry-made c a s) (λ u i. ap (λ x. metric_or_new (find i x)) (log_entry-metrics c a s u))
      (rw last (
        gather_last (λ u. ((get s).statistics u).logs) (λ u. ((log_entry c a s).statistics u).logs)
          (get s).current (entry_bytes c a ∷ []) (log_entry-logs c a s)
        ∙ ap (λ x. x ++ entry_bytes c a ∷ []) (rw (← last) got.entries)))
      got

pub new_store-Holds :
    (limit : ℕ)
    → Holds
        (new_store limit)
        (record { counts = λ i. 0; sums = λ i. 0; longest = λ i. 0; entries = [] })
unfolding new_store total highest gather metric_or_new find
new_store-Holds limit = record {
  counts = λ i. refl;
  sums = λ i. refl;
  longest = λ i. refl;
  least = λ u i. refl;
  entries = refl;
}
