-- ===== src/SafeStream/Sending/Run.antt =====
-- Runs of the sender of safe_stream_sending.cpp, and the room in its buffer.
use aether_client_cpp_new.Prelude.{ℕ, List, [], ◌∷◌, Option, none}
use aether_client_cpp_new.SafeStream.Action.{SendingDataAction}
use aether_client_cpp_new.SafeStream.Sending.{
  Sending, Packet, add, confirmed, request_repeat_send, report_write_failed, stop_action,
  set_max_data_size, update,
}

-- what happens to the sender
pub data Event : Type 0 where
  write : List ℕ → Event
  on_confirm : ℕ → Event
  on_request_repeat : ℕ → Event
  write_failed : ℕ → Event
  stop_write : SendingDataAction → Event
  set_size : ℕ → Event
  tick : ℕ → Event

unfoldable pub step : Sending → Event → Sending × Option Packet
step s (write bytes) = ((add s bytes).0, none)
step s (on_confirm offset) = (confirmed s offset, none)
step s (on_request_repeat offset) = (request_repeat_send s offset, none)
step s (write_failed offset) = (report_write_failed s offset, none)
step s (stop_write a) = (stop_action s a, none)
step s (set_size size) = (set_max_data_size s size, none)
step s (tick now) = let (time, s', packet) = update s now in (s', packet)

unfoldable pub run : Sending → List Event → Sending
unfolding step
run s [] = s
run s (e ∷ es) = run (step s e).0 es
