-- ===== src/SafeStream/Sending/Tests.antt =====
-- Runs of the sender of safe_stream_sending.cpp.
use aether_client_cpp_new.Prelude.{◌≡◌, refl, arith, [], ◌∷◌, some, true}
use aether_client_cpp_new.Ring.{distance, plus, clockwise}
use aether_client_cpp_new.SafeStream.Types.{SafeStreamConfig, in_range}
use aether_client_cpp_new.SafeStream.Chunks.{register}
use aether_client_cpp_new.SafeStream.Action.{waiting, new_action, get_offset_range, mark_sending}
use aether_client_cpp_new.SafeStream.Buffer.{get_slice, slice_from, slice_loop, add_data}
use aether_client_cpp_new.SafeStream.Sending.{
  Sending, send, repeat, create, add, set_max_data_size, update, handle_timeouts, front_timeout,
  send_data, send_found, send_slice,
}
use aether_client_cpp_new.SafeStream.Sending.Run.{write, on_confirm, set_size, tick, run}
use aether_client_cpp_new.SafeStream.Sending.Capacity.{IsWithin, run_keeps_capacity}
use aether_client_cpp_new.SafeStream.Sending.Window.{Writes, send_data_window}

abbrev config : SafeStreamConfig
config = record {
  buffer_capacity = 40;
  window_size = 20;
  max_data_size = 10;
  wait_confirm_timeout = 5;
  send_confirm_timeout = 0;
  send_repeat_timeout = 0;
  max_repeat_count = 2;
}

-- a sender with five bytes to send, at most three in a packet
abbrev ready : Sending
ready = record {
  buffer_capacity = 40;
  window_size = 20;
  max_repeat_count = 2;
  wait_confirm_timeout = 5;
  max_data_size = 3;
  buffer = record {
    window_size = 20;
    views =
        record {
          offset = 0;
          bytes = 1 ∷ 2 ∷ 3 ∷ 4 ∷ 5 ∷ [];
          state = record { changed = true; state = waiting };
        }
        ∷ [];
    finished = [];
    buffer_size = 5;
  };
  chunks = [];
  last_confirmed = 0;
  next_to_add = 5;
  last_sent_offset = 0;
}

run_to_ready : run (create config) (set_size 3 ∷ write (1 ∷ 2 ∷ 3 ∷ 4 ∷ 5 ∷ []) ∷ []) ≡ ready
unfolding run create set_max_data_size add new_action add_data plus
run_to_ready = refl

-- the packet of the first update, that of the second, and the repeated one after the timeout
first_packet : (send_data ready 1).1 ≡ some (send 0 (1 ∷ 2 ∷ 3 ∷ []))
unfolding send_data send_found send_slice get_slice slice_from slice_loop distance plus clockwise
    in_range get_offset_range register mark_sending
first_packet = refl

repeated_packet :
    let once = (send_data ready 1).0 in (update once 9).2 ≡ some (repeat 1 0 (1 ∷ 2 ∷ 3 ∷ []))
unfolding update handle_timeouts front_timeout send_data send_found send_slice get_slice slice_from
    slice_loop distance plus clockwise in_range get_offset_range register mark_sending
repeated_packet = refl

run_keeps_capacity_example :
    IsWithin (run (create config) (set_size 3 ∷ write (1 ∷ 2 ∷ []) ∷ tick 1 ∷ on_confirm 1 ∷ []))
run_keeps_capacity_example =
    run_keeps_capacity config (set_size 3 ∷ write (1 ∷ 2 ∷ []) ∷ tick 1 ∷ on_confirm 1 ∷ [])
      (omega arith)

send_data_window_example : Writes ready (send_data ready 1).0 (send 0 (1 ∷ 2 ∷ 3 ∷ []))
send_data_window_example =
    send_data_window ready 1 (send 0 (1 ∷ 2 ∷ 3 ∷ [])) (omega arith) (omega arith) first_packet
