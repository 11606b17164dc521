-- ===== src/SafeStream/Receiving/Tests.antt =====
-- Runs of the receiver of safe_stream_receiving.cpp.
use aether_client_cpp_new.Prelude.{
  ℕ, ◌+◌, ◌*◌, ◌≤◌, ◌<◌, ◌≡◌, refl, arith, List, [], ◌∷◌, ◌++◌, All, length, false,
}
use aether_client_cpp_new.Ring.{distance, plus}
use aether_client_cpp_new.SafeStream.Types.{max_index, SafeStreamConfig}
use aether_client_cpp_new.SafeStream.Receiving.{
  Receiving, create, receive_send, receive_repeat, add_data_chunk, insert_chunk, placed_chunk,
  join_chain, check_completed_chains, check_missed_offset, check_chunk_chains, missed_loop,
  add_expected_chunk, make_response, erase_expected, update,
}
use aether_client_cpp_new.SafeStream.Receiving.Order.{slice}
use aether_client_cpp_new.SafeStream.Receiving.Run.{
  Event, on_send, on_repeat, tick, run, run_in_order,
}
use aether_client_cpp_new.SafeStream.Receiving.Delivery.{all_bytes, sends, run_delivers}
use aether_client_cpp_new.SafeStream.Receiving.Stall.{IsStalled, run-IsStalled}

abbrev config : SafeStreamConfig
config = record {
  buffer_capacity = 40;
  window_size = 20;
  max_data_size = 10;
  wait_confirm_timeout = 5;
  send_confirm_timeout = 0;
  send_repeat_timeout = 0;
  max_repeat_count = 2;
}

-- the stream whose byte at a position is ten more than the position
abbrev stream : ℕ → ℕ
stream n = n + 10

-- a later chunk first, then a repeated one that overlaps it
abbrev reordered : List Event
reordered =
    on_send 3 (13 ∷ 14 ∷ [])
    ∷ on_repeat 1 0 (10 ∷ 11 ∷ 12 ∷ 13 ∷ [])
    ∷ tick 1
    ∷ on_send 0 (10 ∷ [])
    ∷ tick 2
    ∷ []

run-reordered : (run (create config) reordered).1 ≡ 10 ∷ 11 ∷ 12 ∷ 13 ∷ 14 ∷ []
unfolding run create receive_send receive_repeat add_data_chunk insert_chunk placed_chunk join_chain
    distance plus check_completed_chains check_missed_offset check_chunk_chains missed_loop
    add_expected_chunk make_response erase_expected update
run-reordered = refl

run_in_order_example :
    ((run (create config) reordered).1 ≡ slice stream 0 (length (run (create config) reordered).1))
    × ((run (create config) reordered).0.last_confirmed_offset
        ≡ length (run (create config) reordered).1)
run_in_order_example = run_in_order stream config reordered (
  record { carries = refl; fits = omega arith },
  (
    record { carries = refl; fits = omega arith },
    (tt, (record { carries = refl; fits = omega arith }, (tt, tt))),
  ),
)

-- A chunk that starts inside the one before it, then an update.
abbrev overlapping : List Event
overlapping = on_send 0 (10 ∷ 11 ∷ 12 ∷ 13 ∷ []) ∷ on_send 2 (12 ∷ 13 ∷ 14 ∷ 15 ∷ []) ∷ tick 1 ∷ []

abbrev blocked : Receiving
blocked = record {
  max_window_size = 20;
  max_repeat_count = 2;
  send_confirm_timeout = 0;
  send_repeat_timeout = 0;
  last_send_confirm_time = 1;
  oldest_repeat_time = 1;
  last_confirmed_offset = 4;
  chunks = record { offset = 2; bytes = 12 ∷ 13 ∷ 14 ∷ 15 ∷ [] } ∷ [];
  expected_chunks = record { offset = 4; repeat_count = 0 } ∷ [];
  repeat_queue = [];
  confirmation_queue = [];
  repeat_count_exceeded = false;
}

overlap_blocks : run (create config) overlapping ≡ (blocked, 10 ∷ 11 ∷ 12 ∷ 13 ∷ [])
unfolding run create receive_send receive_repeat add_data_chunk insert_chunk placed_chunk join_chain
    distance plus check_completed_chains check_missed_offset check_chunk_chains missed_loop
    add_expected_chunk make_response erase_expected update
overlap_blocks = refl

-- The missing bytes, sent again from the confirmed offset on, are not handed on.
abbrev resent : List Event
resent = on_send 4 (14 ∷ 15 ∷ 16 ∷ []) ∷ tick 2 ∷ on_repeat 1 4 (14 ∷ 15 ∷ []) ∷ tick 3 ∷ []

run-IsStalled_example : ((run blocked resent).1 ≡ []) × IsStalled 2 (run blocked resent).0
run-IsStalled_example =
    run-IsStalled 2 blocked resent (omega arith, (tt, (omega arith, (tt, tt))))
      (record { stored = refl; behind = omega arith; room = omega arith; near = omega arith })

abbrev pieces : List (List ℕ)
pieces = (10 ∷ 11 ∷ []) ∷ (12 ∷ []) ∷ (13 ∷ 14 ∷ []) ∷ []

pieces-full : All (λ p. 0 < length p) pieces
pieces-full = (omega arith, (omega arith, (omega arith, tt)))

pieces-fit : length (all_bytes pieces) ≤ 20
pieces-fit = omega arith

small_window : 2 * 20 < max_index
small_window = omega arith

due_at_once : 0 ≤ 3
due_at_once = omega arith

run_delivers_example :
    ((run (create config) (sends 0 pieces ++ (tick 3 ∷ []))).1 ≡ all_bytes pieces)
    × ((run (create config) (sends 0 pieces ++ (tick 3 ∷ []))).0.last_confirmed_offset
        ≡ length (all_bytes pieces))
run_delivers_example = run_delivers config pieces 3 pieces-full pieces-fit small_window due_at_once
