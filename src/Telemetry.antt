-- ===== src/Telemetry.antt =====
-- aether/tele/traps/statistics_trap.h and .cpp: the store of logs and metrics. The statistics that
-- were made stand in `statistics` under numbers, for the pointers that are shared: `prev` and `current`
-- are numbers, and so is what a stream holds. The maps are those of FileSystem, text is its list of
-- characters.
pub mod Trap
mod Tests
pub mod Merging
pub mod Steps
pub mod Accounts
pub mod Totals
pub mod Records
pub mod Changes
pub mod Logs
pub mod Sums
pub mod Tele
use aether_client_cpp_new.Prelude.{
  ℕ, zero, suc, ◌+◌, ◌-◌, ◌*◌, ◌%◌, ◌^◌, max, min, Bool, Option, none, some, List, [], ◌∷◌, ◌++◌,
  leb, ◌==◌, if◌then◌else◌, length,
}
use aether_client_cpp_new.FileSystem.{Map, find, assign}

-- `MetricsStore::Metric`
pub record Metric : Type 0 where
  pub invocations_count : ℕ
  pub max_duration : ℕ
  pub sum_duration : ℕ
  pub min_duration : ℕ

-- a metric as `operator[]` makes it
abbrev pub new_metric : Metric
new_metric = record { invocations_count = 0; max_duration = 0; sum_duration = 0; min_duration = 0 }

-- `EnvStore`
pub record EnvStore : Type 0 where
  pub platform_type : List ℕ
  pub platform_version : List ℕ
  pub compiler : List ℕ
  pub compiler_version : List ℕ
  pub library_version : List ℕ
  pub api_version : List ℕ
  pub cpu_type : List ℕ
  pub endianness : ℕ
  pub compile_options : List (ℕ × ℕ)

abbrev pub new_env_store : EnvStore
new_env_store = record {
  platform_type = [];
  platform_version = [];
  compiler = [];
  compiler_version = [];
  library_version = [];
  api_version = [];
  cpu_type = [];
  endianness = 0;
  compile_options = [];
}

-- `Statistics`
pub record Statistics : Type 0 where
  pub logs : List (List ℕ)
  pub metrics : Map Metric
  pub size : ℕ

abbrev pub new_statistics : Statistics
new_statistics = record { logs = []; metrics = []; size = 0 }

-- the size of the last entry, which is there where the code reads it
unfoldable pub last_size : List (List ℕ) → ℕ
last_size [] = 0
last_size (e ∷ []) = length e
last_size (e ∷ (f ∷ es)) = last_size (f ∷ es)

-- `UpdateSize` for logs: the iterator is not moved on
unfoldable pub update_logs_size : ℕ → Statistics → Statistics
unfolding last_size
update_logs_size delta_size x = record x { size = x.size + delta_size * last_size x.logs }

-- `sizeof(MetricsStore::Metric)`
abbrev pub metric_bytes : ℕ
metric_bytes = 16

-- `UpdateSize` for metrics
unfoldable pub update_metrics_size : ℕ → Statistics → Statistics
update_metrics_size delta_size x = record x { size = x.size + delta_size * metric_bytes }

-- what `Append` makes of a metric that both have
unfoldable pub combine : Metric → Metric → Metric
combine old m = record {
  invocations_count = (old.invocations_count + m.invocations_count) % 2 ^ 32;
  max_duration = max old.max_duration m.max_duration;
  sum_duration = (old.sum_duration + m.sum_duration) % 2 ^ 32;
  min_duration = min old.min_duration m.min_duration;
}

-- one round of the loop of `Append`
unfoldable pub append_metric : Option Metric → Metric → Metric
unfolding combine
append_metric none m = m
append_metric (some old) m = combine old m

unfoldable pub append_metrics : Map Metric → Map Metric → Map Metric
unfolding append_metric
append_metrics metrics [] = metrics
append_metrics metrics ((i, m) ∷ more) =
    append_metrics (assign i (append_metric (find i metrics) m) metrics) more

-- `Append`
unfoldable pub append : Statistics → Statistics → Statistics
unfolding append_metrics
append x other = record x {
  logs = x.logs ++ other.logs;
  metrics = append_metrics x.metrics other.metrics;
}

-- `StatisticsStore`
pub record StatisticsStore : Type 0 where
  pub statistics_size_limit : ℕ
  pub env_store : EnvStore
  pub prev : Option ℕ
  pub current : ℕ
  pub statistics : ℕ → Statistics
  pub made : ℕ

unfoldable pub new_store : ℕ → StatisticsStore
new_store limit = record {
  statistics_size_limit = limit;
  env_store = new_env_store;
  prev = none;
  current = 0;
  statistics = λ n. new_statistics;
  made = 1;
}

-- a change of the statistics behind a pointer
unfoldable pub modify : ℕ → (Statistics → Statistics) → StatisticsStore → StatisticsStore
modify u g s = record s { statistics = λ n. if n == u then g (s.statistics n) else s.statistics n }

-- `IsCurrentFull`
unfoldable pub is_current_full : StatisticsStore → Bool
is_current_full s = leb s.statistics_size_limit (s.statistics s.current).size

-- `std::make_unique<Statistics>()`
unfoldable pub make : StatisticsStore → StatisticsStore
make s = record s {
  statistics = λ n. if n == s.made then new_statistics else s.statistics n;
  made = s.made + 1;
}

-- `Rotate`
unfoldable pub rotate : StatisticsStore → StatisticsStore
unfolding make
rotate s = record (make s) { prev = some s.current; current = s.made }

-- `Get`, which returns `current`
unfoldable pub get : StatisticsStore → StatisticsStore
get s = if is_current_full s then rotate s else s

-- `SetSizeLimit`
unfoldable pub set_size_limit : ℕ → StatisticsStore → StatisticsStore
set_size_limit limit s = record s { statistics_size_limit = limit }

-- What `Merge` does with the previous statistics of the newer store. They are shared with that store;
-- here they are taken over as they are at the call.
unfoldable pub take_prev : Option Statistics → StatisticsStore → StatisticsStore
take_prev none s = s
take_prev (some x) s = record (modify s.made (λ _. x) (make s)) { prev = some s.made }

abbrev pub statistics_at : Option ℕ → StatisticsStore → Option Statistics
statistics_at none s = none
statistics_at (some u) s = some (s.statistics u)

-- `Merge`
unfoldable pub merge : StatisticsStore → StatisticsStore → StatisticsStore
merge s newer =
    let current = get s in
    let appended =
      modify current.current (λ x. append x (newer.statistics newer.current)) current in
    record (take_prev (statistics_at newer.prev newer) appended) { env_store = newer.env_store }
