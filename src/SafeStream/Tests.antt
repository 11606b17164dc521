-- ===== src/SafeStream/Tests.antt =====
-- A run of sender and receiver together.
use aether_client_cpp_new.Prelude.{◌≡◌, refl, arith, List, [], ◌∷◌, All, length, take}
use mathlib.Core.List.{Memᴰ}
use aether_client_cpp_new.Ring.{distance, plus, clockwise}
use aether_client_cpp_new.SafeStream.Types.{in_range, SafeStreamConfig}
use aether_client_cpp_new.SafeStream.Chunks.{register}
use aether_client_cpp_new.SafeStream.Action.{new_action, get_offset_range, mark_sending}
use aether_client_cpp_new.SafeStream.Buffer.{get_slice, slice_from, slice_loop, add_data}
use aether_client_cpp_new.SafeStream.Receiving as Receiving
use aether_client_cpp_new.SafeStream.Receiving.Run as ReceivingRun
use aether_client_cpp_new.SafeStream.Receiving.Run.{on_send, on_repeat, tick}
use aether_client_cpp_new.SafeStream.Sending.{
  create, add, set_max_data_size, update, handle_timeouts, front_timeout, send_data, send_found,
  send_slice, send,
}
use aether_client_cpp_new.SafeStream.Sending.Run as SendingRun
use aether_client_cpp_new.SafeStream.Sending.Run.{write, set_size, step}
use aether_client_cpp_new.SafeStream.Sending.Genuine.{Carries}
use aether_client_cpp_new.SafeStream.Sending.Stream.{AllProper, stream, packets}
use aether_client_cpp_new.SafeStream.Sending.Packets.{packets_of_stream}
use aether_client_cpp_new.SafeStream.EndToEnd.{Arrives, stream_delivered}

abbrev config : SafeStreamConfig
config = record {
  buffer_capacity = 20;
  window_size = 20;
  max_data_size = 10;
  wait_confirm_timeout = 5;
  send_confirm_timeout = 0;
  send_repeat_timeout = 0;
  max_repeat_count = 2;
}

-- Five bytes are written, and sent in two packets.
abbrev sent : List SendingRun.Event
sent = set_size 3 ∷ write (1 ∷ 2 ∷ 3 ∷ 4 ∷ 5 ∷ []) ∷ SendingRun.tick 1 ∷ SendingRun.tick 1 ∷ []

sent_proper : AllProper (create config) sent
sent_proper = (tt, (omega arith, (tt, (tt, tt))))

sent_stream : stream (create config) sent ≡ 1 ∷ 2 ∷ 3 ∷ 4 ∷ 5 ∷ []
unfolding create step set_max_data_size
sent_stream = refl

sent_packets : packets (create config) sent ≡ send 0 (1 ∷ 2 ∷ 3 ∷ []) ∷ send 3 (4 ∷ 5 ∷ []) ∷ []
unfolding create step set_max_data_size update handle_timeouts front_timeout send_data send_found
    send_slice get_slice slice_from slice_loop distance plus clockwise in_range get_offset_range
    register mark_sending add new_action add_data
sent_packets = refl

-- The packets arrive in the wrong order, the second one twice.
abbrev arrived : List ReceivingRun.Event
arrived = on_send 3 (4 ∷ 5 ∷ []) ∷ on_send 0 (1 ∷ 2 ∷ 3 ∷ []) ∷ on_send 3 (4 ∷ 5 ∷ []) ∷ tick 9 ∷ []

packets_of_stream_example :
    All (Carries (stream (create config) sent)) (packets (create config) sent)
packets_of_stream_example =
    packets_of_stream config sent (omega arith) (omega arith) sent_proper
      (rw sent_stream (omega arith))

arrived_sent : All (Arrives (packets (create config) sent)) arrived
arrived_sent =
    rw sent_packets
      (Memᴰ.tail (Memᴰ.head refl), (Memᴰ.head refl, (Memᴰ.tail (Memᴰ.head refl), (tt, tt))))

stream_delivered_example :
    let out = ReceivingRun.run (Receiving.create config) arrived in
    (out.1 ≡ take (length out.1) (stream (create config) sent))
    × (out.0.last_confirmed_offset ≡ length out.1)
stream_delivered_example =
    stream_delivered config config sent arrived (omega arith) (omega arith) sent_proper
      (rw sent_stream (omega arith)) arrived_sent
