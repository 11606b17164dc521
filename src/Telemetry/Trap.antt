-- ===== src/Telemetry/Trap.antt =====
-- The streams of aether/tele/traps/statistics_trap.cpp. A `ProxyStatistics` is the number of its
-- statistics and the size that it found; its destructor is `close_log` and `close_metric`.
use aether_client_cpp_new.Prelude.{
  ℕ, zero, suc, ◌+◌, ◌-◌, ◌%◌, ◌^◌, max, min, Option, none, some, List, [], ◌∷◌, ◌++◌, leb,
  if◌then◌else◌, length,
}
use aether_client_cpp_new.FileSystem.{find, assign}
use aether_client_cpp_new.MStream.{to_bytes}
use aether_client_cpp_new.Packed.{serialize}
use aether_client_cpp_new.Telemetry.{
  Metric, new_metric, Statistics, update_logs_size, update_metrics_size, StatisticsStore, modify,
  get,
}

-- `LogStream`: the entry is the place in the list that its reference stands for
pub record LogStream : Type 0 where
  pub statistics : ℕ
  pub size : ℕ
  pub entry : ℕ

-- `log_stream`
unfoldable pub log_stream : StatisticsStore → LogStream × StatisticsStore
log_stream s =
    let s' = get s in
    let logs = (s'.statistics s'.current).logs in
    (
      record { statistics = s'.current; size = length logs; entry = length logs },
      modify s'.current (λ x. record x { logs = x.logs ++ [] ∷ [] }) s',
    )

-- bytes written behind those of an entry
unfoldable pub append_at : ℕ → List ℕ → List (List ℕ) → List (List ℕ)
append_at n bytes [] = []
append_at zero bytes (e ∷ es) = (e ++ bytes) ∷ es
append_at (suc n) bytes (e ∷ es) = e ∷ append_at n bytes es

unfoldable pub write_entry : LogStream → List ℕ → StatisticsStore → StatisticsStore
unfolding append_at
write_entry st bytes s =
    modify st.statistics (λ x. record x { logs = append_at st.entry bytes x.logs }) s

-- What the operators of a `LogStream` write. Sizes and indexes are `Packed` integers of eight bytes,
-- times have eight bytes, levels one and modules four.
unfoldable pub packed_bytes : ℕ → List ℕ
unfolding serialize
packed_bytes v = serialize 1 250 3 v

unfoldable pub text_bytes : List ℕ → List ℕ
text_bytes t = packed_bytes (length t) ++ t

module _ (st : LogStream) where
  -- `index`
  unfoldable pub index : ℕ → StatisticsStore → StatisticsStore
  index i = write_entry st (packed_bytes i)

  -- `start_time`
  unfoldable pub start_time : ℕ → StatisticsStore → StatisticsStore
  start_time t = write_entry st (to_bytes 8 t)

  -- `level`
  unfoldable pub level : ℕ → StatisticsStore → StatisticsStore
  level l = write_entry st (to_bytes 1 l)

  -- `module`
  unfoldable pub module_number : ℕ → StatisticsStore → StatisticsStore
  module_number m = write_entry st (to_bytes 4 m)

  -- `file`
  unfoldable pub file : List ℕ → StatisticsStore → StatisticsStore
  file f = write_entry st (text_bytes f)

  -- `line`
  unfoldable pub line : ℕ → StatisticsStore → StatisticsStore
  line l = write_entry st (packed_bytes l)

  -- `name`
  unfoldable pub name : List ℕ → StatisticsStore → StatisticsStore
  name n = write_entry st (text_bytes n)

  -- `blob`, on the text that `Format` made
  unfoldable pub blob : List ℕ → StatisticsStore → StatisticsStore
  blob t = write_entry st (text_bytes t)

  -- `~ProxyStatistics` of the logs
  unfoldable pub close_log : StatisticsStore → StatisticsStore
  unfolding update_logs_size
  close_log s =
      let count = length (s.statistics st.statistics).logs in
      if leb count st.size then s else modify st.statistics (update_logs_size (count - st.size)) s

-- `MetricStream`: its reference is to the metric of the index
pub record MetricStream : Type 0 where
  pub statistics : ℕ
  pub size : ℕ
  pub index : ℕ

unfoldable pub metric_or_new : Option Metric → Metric
metric_or_new none = new_metric
metric_or_new (some m) = m

-- a change of a metric, which `operator[]` makes if it is not there
unfoldable pub modify_metric : ℕ → (Metric → Metric) → Statistics → Statistics
unfolding metric_or_new
modify_metric i g x = record x {
  metrics = assign i (g (metric_or_new (find i x.metrics))) x.metrics;
}

-- `metric_stream`, on the index of the declaration
unfoldable pub metric_stream : ℕ → StatisticsStore → MetricStream × StatisticsStore
metric_stream index s =
    let s' = get s in
    let i = index % 2 ^ 32 in
    (
      record {
        statistics = s'.current;
        size = length (s'.statistics s'.current).metrics;
        index = i;
      },
      modify s'.current (modify_metric i (λ m. m)) s',
    )

module _ (st : MetricStream) where
  -- `add_count`
  unfoldable pub add_count : ℕ → StatisticsStore → StatisticsStore
  add_count count = modify st.statistics (
      modify_metric st.index
        (λ m. record m { invocations_count = (m.invocations_count + count) % 2 ^ 32 }))

  -- `add_duration`
  unfoldable pub add_duration : ℕ → StatisticsStore → StatisticsStore
  add_duration duration = modify st.statistics (
      modify_metric st.index (λ m. record m {
        sum_duration = (m.sum_duration + duration) % 2 ^ 32;
        max_duration = max m.max_duration duration;
        min_duration = min m.min_duration duration;
      }))

  -- `~ProxyStatistics` of the metrics
  unfoldable pub close_metric : StatisticsStore → StatisticsStore
  unfolding update_metrics_size
  close_metric s =
      let count = length (s.statistics st.statistics).metrics in
      if leb count st.size
      then s
      else modify st.statistics (update_metrics_size (count - st.size)) s
