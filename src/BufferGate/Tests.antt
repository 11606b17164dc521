-- ===== src/BufferGate/Tests.antt =====
-- Runs of the gate of buffer_gate.cpp, and the instances of its theorems.
use aether_client_cpp_new.Prelude.{◌<◌, ◌≡◌, refl, arith, true, false, List, [], ◌∷◌, ◌++◌, some}
use mathlib.Core.List.{Sublistᴰ, Memᴰ}
use aether_client_cpp_new.BufferGate.{
  StreamInfo, BufferGate, wrote, updated, declined, create, new_write, update_gate, find_write,
}
use aether_client_cpp_new.BufferGate.Actions.{
  Event, on_write, on_stop, on_gate_update, on_out_finished, step, run,
}
use aether_client_cpp_new.BufferGate.Waiting.{written, waiting, offered}
use aether_client_cpp_new.BufferGate.Order.{run_ordered}
use aether_client_cpp_new.BufferGate.Room.{IsRoomy, run_keeps_room}
use aether_client_cpp_new.BufferGate.Drain.{update_gate-open, stopped_write_written}

abbrev ready : StreamInfo
ready = record {
  max_element_size = 1000;
  is_linked = true;
  is_writeble = true;
  is_soft_writable = true;
}

-- two writes into a gate for two before it is linked, one that is declined, the link, and a last one
abbrev events : List Event
events =
    on_write (1 ∷ []) 10
    ∷ on_write (2 ∷ []) 11
    ∷ on_write (3 ∷ []) 12
    ∷ on_gate_update ready
    ∷ on_out_finished 0
    ∷ on_write (4 ∷ []) 13
    ∷ on_gate_update ready
    ∷ []

run-events :
    (run (create 2) events).1
    ≡ updated
      ∷ declined
      ∷ updated
      ∷ wrote (1 ∷ []) 10
      ∷ wrote (2 ∷ []) 11
      ∷ updated
      ∷ updated
      ∷ wrote (4 ∷ []) 13
      ∷ []
unfolding run create
run-events = refl

run_ordered_example :
    Sublistᴰ
      (written (run (create 2) events).1 ++ waiting (run (create 2) events).0.queue)
      (waiting (create 2).queue ++ offered events)
run_ordered_example = run_ordered (create 2) events

two_is_positive : 0 < 2
two_is_positive = omega arith

run_keeps_room_example : IsRoomy (run (create 2) events).0
run_keeps_room_example = run_keeps_room 2 events two_is_positive

-- a gate for two with one write that waits
abbrev loaded : BufferGate
loaded = record (create 2) { queue = new_write 0 (1 ∷ []) 10 ∷ []; next_id = 1 }

loaded-IsRoomy : IsRoomy loaded
unfolding create
loaded-IsRoomy = record { positive = omega arith; room = omega arith; soft = refl; linked = refl }

update_gate-open_example :
    (written (update_gate loaded ready).1 ≡ waiting loaded.queue)
    × (waiting (update_gate loaded ready).0.queue ≡ [])
update_gate-open_example = update_gate-open loaded ready loaded-IsRoomy refl refl

find_write-loaded : find_write 0 loaded.queue ≡ some (new_write 0 (1 ∷ []) 10)
unfolding find_write new_write
find_write-loaded = refl

new_write-unsent : (new_write 0 (1 ∷ []) 10).is_sent ≡ false
unfolding new_write
new_write-unsent = refl

stopped_write_written_example :
    Memᴰ
      ((new_write 0 (1 ∷ []) 10).bytes, (new_write 0 (1 ∷ []) 10).current_time)
      (written (step (step loaded (on_stop 0)).0 (on_gate_update ready)).1)
stopped_write_written_example =
    stopped_write_written loaded 0 (new_write 0 (1 ∷ []) 10) ready loaded-IsRoomy find_write-loaded
      new_write-unsent refl refl
