-- ===== src/Telemetry/Tests.antt =====
-- A program with nested objects and a limit that makes the store rotate, and a merge.
use aether_client_cpp_new.Prelude.{ℕ, ◌≡◌, refl, arith, true, false, none, List, [], ◌∷◌, ◌++◌}
use aether_client_cpp_new.FileSystem.{find, assign, keys}
use aether_client_cpp_new.FileSystem.Maps.{Ascending}
use aether_client_cpp_new.MStream.{to_bytes}
use aether_client_cpp_new.Packed.{serialize, limit}
use aether_client_cpp_new.Telemetry.{
  StatisticsStore, new_store, get, rotate, make, modify, is_current_full, update_logs_size,
  update_metrics_size, merge, last_size,
}
use aether_client_cpp_new.Telemetry.Trap.{
  log_stream, write_entry, append_at, index, start_time, level, module_number, file, line, name,
  blob, close_log, metric_stream, modify_metric, metric_or_new, add_count, add_duration,
  close_metric, packed_bytes, text_bytes,
}
use aether_client_cpp_new.Telemetry.Tele.{
  Config, Call, is_any_logs, is_any_metrics, log_text, log_call, log_entry, start_metric, construct,
  destroy, Event, make_tele, destroy_tele, fresh, step, run,
}
use aether_client_cpp_new.Telemetry.Totals.{Holds}
use aether_client_cpp_new.Telemetry.Accounts.{no_account, account, run-Holds, run-IsStore}
use aether_client_cpp_new.Telemetry.Merging.{merge-lookup, IsMerged, current_of}

abbrev config : Config
config = record {
  count_metrics = true;
  time_metrics = true;
  index_logs = true;
  start_time_logs = false;
  level_module_logs = true;
  location_logs = false;
  name_logs = true;
  blob_logs = true;
}

abbrev call : ℕ → Call
call i = record {
  declaration = i;
  module_ = 3;
  level_ = 2;
  start = 0;
  file_ = [];
  line_ = 0;
  name_ = b'f' ∷ [];
  text = none;
}

abbrev events : List Event
events =
    make_tele (call 7)
    ∷ make_tele (call 9)
    ∷ destroy_tele 1 5
    ∷ make_tele (call 7)
    ∷ destroy_tele 2 8
    ∷ destroy_tele 0 20
    ∷ []

run-Holds_example :
    Holds (run config events (fresh 20)).store (account config events no_account).ledger
run-Holds_example = run-Holds config 20 events

abbrev older : StatisticsStore
older = (run config events (fresh 20)).store

abbrev newer : StatisticsStore
newer = (run config events (fresh 1000)).store

-- two entries of eight bytes and two metrics of sixteen, of which the first is counted twice
nested_size : ℕ
nested_size = (newer.statistics newer.current).size

nested_size_lem : nested_size ≡ 72
unfolding nested_size run step construct destroy start_metric is_any_metrics is_any_logs log_entry
    log_call log_text log_stream write_entry append_at index start_time level module_number file
    line name blob close_log metric_stream modify_metric metric_or_new add_count add_duration
    close_metric packed_bytes text_bytes new_store get rotate make modify is_current_full
    update_logs_size update_metrics_size find assign serialize to_bytes limit last_size
nested_size_lem = refl

newer-Ascending : Ascending (keys (newer.statistics newer.current).metrics)
unfolding run step construct destroy start_metric is_any_metrics is_any_logs log_entry log_stream
    close_log metric_stream modify_metric add_count add_duration close_metric log_call log_text
    write_entry index start_time level module_number file line name blob new_store get rotate make
    modify is_current_full update_logs_size update_metrics_size find assign keys packed_bytes
    text_bytes serialize to_bytes append_at limit last_size
newer-Ascending = omega arith

merge-lookup_example :
    ((i : ℕ)
      → IsMerged
          (find i (current_of (get older)).metrics)
          (find i (current_of newer).metrics)
          (find i (current_of (merge older newer)).metrics))
    × ((current_of (merge older newer)).logs
        ≡ (current_of (get older)).logs ++ (current_of newer).logs)
    × ((current_of (merge older newer)).size ≡ (current_of (get older)).size)
merge-lookup_example = merge-lookup older newer (run-IsStore config 20 events) newer-Ascending
