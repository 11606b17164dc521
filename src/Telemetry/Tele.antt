-- ===== src/Telemetry/Tele.antt =====
-- `Tele` of aether/tele/collectors.h, which writes one log entry when it is made and measures the time
-- until it is destroyed, and the runs of a program that makes and destroys them.
use aether_client_cpp_new.Prelude.{
  ℕ, ◌+◌, Bool, ◌||◌, Option, none, some, List, [], ◌∷◌, ◌==◌, if◌then◌else◌,
}
use aether_client_cpp_new.Telemetry.{StatisticsStore, new_store}
use aether_client_cpp_new.Telemetry.Trap.{
  LogStream, log_stream, index, start_time, level, module_number, file, line, name, blob, close_log,
  MetricStream, metric_stream, add_count, add_duration, close_metric,
}

-- the flags of `SinkConfig`
pub record Config : Type 0 where
  pub count_metrics : Bool
  pub time_metrics : Bool
  pub index_logs : Bool
  pub start_time_logs : Bool
  pub level_module_logs : Bool
  pub location_logs : Bool
  pub name_logs : Bool
  pub blob_logs : Bool

-- the arguments of a `Tele`, the start of its timer among them; the text if a format is given
pub record Call : Type 0 where
  pub declaration : ℕ
  pub module_ : ℕ
  pub level_ : ℕ
  pub start : ℕ
  pub file_ : List ℕ
  pub line_ : ℕ
  pub name_ : List ℕ
  pub text : Option (List ℕ)

-- What a program does: it makes a `Tele`, or destroys the one that it made as the n-th.
pub data Event : Type 0 where
  make_tele : Call → Event
  destroy_tele : ℕ → ℕ → Event

-- the store, the metric streams of the objects that are not destroyed, and how many were made
pub record Program : Type 0 where
  pub store : StatisticsStore
  pub teles : ℕ → Option MetricStream
  pub count : ℕ

abbrev pub fresh : ℕ → Program
fresh limit = record { store = new_store limit; teles = λ n. none; count = 0 }

module _ (c : Config) where
  -- `IsAnyLogs`
  unfoldable pub is_any_logs : Bool
  is_any_logs =
      c.index_logs
      || (c.start_time_logs
          || (c.level_module_logs || (c.location_logs || (c.name_logs || c.blob_logs))))

  -- `IsAnyMetrics`
  unfoldable pub is_any_metrics : Bool
  is_any_metrics = c.count_metrics || c.time_metrics

  unfoldable pub log_text : LogStream → Option (List ℕ) → StatisticsStore → StatisticsStore
  log_text st none s = s
  log_text st (some t) s = if c.blob_logs then blob st t s else s

  -- what is written to the log, the pieces in their order
  unfoldable pub log_call : Call → LogStream → StatisticsStore → StatisticsStore
  log_call a st s =
      let s1 = if c.index_logs then index st a.declaration s else s in
      let s2 = if c.start_time_logs then start_time st a.start s1 else s1 in
      let s3 =
        if c.level_module_logs then module_number st a.module_ (level st a.level_ s2) else s2 in
      let s4 = if c.location_logs then line st a.line_ (file st a.file_ s3) else s3 in
      let s5 = if c.name_logs then name st a.name_ s4 else s4 in log_text st a.text s5

  -- the log stream from its opening to its end
  unfoldable pub log_entry : Call → StatisticsStore → StatisticsStore
  log_entry a s = let (st, opened) = log_stream s in close_log st (log_call a st opened)

  -- the private constructor of `Tele`
  unfoldable pub start_metric : ℕ → StatisticsStore → Option MetricStream × StatisticsStore
  start_metric i s =
      let (st, opened) = metric_stream i s in
      if is_any_metrics
      then (some st, if c.count_metrics then add_count st 1 opened else opened)
      else (none, s)

  -- the constructors of `Tele`
  unfoldable pub construct : Call → StatisticsStore → Option MetricStream × StatisticsStore
  construct a s =
      let (st, started) = start_metric a.declaration s in
      (st, if is_any_logs then log_entry a started else started)

  -- `~Tele`
  unfoldable pub destroy : ℕ → Option MetricStream → StatisticsStore → StatisticsStore
  destroy elapsed none s = s
  destroy elapsed (some st) s =
      close_metric st (if c.time_metrics then add_duration st elapsed s else s)

  unfoldable pub step : Event → Program → Program
  step (make_tele a) p =
      let (st, s) = construct a p.store in
      record { store = s; teles = λ n. if n == p.count then st else p.teles n; count = p.count + 1 }
  step (destroy_tele k elapsed) p = record p {
    store = destroy elapsed (p.teles k) p.store;
    teles = λ n. if n == k then none else p.teles n;
  }

  unfoldable pub run : List Event → Program → Program
  run [] p = p
  run (e ∷ es) p = run es (step e p)
