-- ===== src/BufferGate/Actions.antt =====
-- aether/stream_api/buffer_gate.cpp: what happens to a queued write, and runs of the gate.
use aether_client_cpp_new.Prelude.{
  ℕ, Bool, true, false, Option, none, some, List, [], ◌∷◌, ◌++◌, if◌then◌else◌,
}
use aether_client_cpp_new.StateMachine.{set, acquire}
use aether_client_cpp_new.BufferGate.{
  StreamInfo, WriteState, stopped, WriteState-discrete, BufferedWrite, BufferGate, Effect,
  stopped_out, write, update_gate, find_write, set_write, remove_action,
}

unfoldable pub set_state : BufferedWrite → WriteState → BufferedWrite
unfolding set WriteState-discrete
set_state a state = record a { state = (set WriteState-discrete state a.state).0 }

-- `Stop`: of a write that is sent the out gate's action is stopped
unfoldable pub stop_write : BufferGate → BufferedWrite → BufferGate × List Effect
unfolding set_state set_write
stop_write g a =
    if a.is_sent
    then (g, stopped_out a.id ∷ [])
    else (record g { queue = set_write (set_state a stopped) g.queue }, [])

-- whether `Update` stops the action
unfoldable pub is_stop : WriteState → Bool
is_stop stopped = true
is_stop state = false

-- `BufferedWriteAction::Update`
unfoldable pub update_write : BufferGate → BufferedWrite → BufferGate × List Effect
unfolding acquire remove_action set_write is_stop
update_write g a =
    let (state, machine) = acquire a.state in
    let kept : BufferGate = record g { queue = set_write (record a { state = machine }) g.queue } in
    if a.state.changed
    then (if is_stop state then remove_action g a.id else (kept, []))
    else (g, [])

-- the subscription on the changed state of the out gate's action
unfoldable pub out_changed : BufferGate → WriteState → BufferedWrite → BufferGate × List Effect
unfolding set_state set_write
out_changed g state a =
    if a.is_sent then (record g { queue = set_write (set_state a state) g.queue }, []) else (g, [])

-- the subscriptions on its result, error and stop
unfoldable pub out_finished : BufferGate → BufferedWrite → BufferGate × List Effect
unfolding remove_action
out_finished g a = if a.is_sent then remove_action g a.id else (g, [])

-- what happens to the gate
pub data Event : Type 0 where
  on_write : List ℕ → ℕ → Event
  on_stop on_update on_out_finished : ℕ → Event
  on_out_changed : ℕ → WriteState → Event
  on_gate_update : StreamInfo → Event

-- an event of a write that is not in the queue does nothing
unfoldable pub with_write :
    BufferGate
    → (BufferedWrite → BufferGate × List Effect)
    → Option BufferedWrite
    → BufferGate × List Effect
with_write g act none = (g, [])
with_write g act (some a) = act a

unfoldable pub step : BufferGate → Event → BufferGate × List Effect
unfolding with_write find_write write update_gate stop_write update_write out_finished out_changed
step g (on_write bytes now) = write g bytes now
step g (on_stop id) = with_write g (stop_write g) (find_write id g.queue)
step g (on_update id) = with_write g (update_write g) (find_write id g.queue)
step g (on_out_finished id) = with_write g (out_finished g) (find_write id g.queue)
step g (on_out_changed id state) = with_write g (out_changed g state) (find_write id g.queue)
step g (on_gate_update info) = update_gate g info

unfoldable pub run : BufferGate → List Event → BufferGate × List Effect
unfolding step
run g [] = (g, [])
run g (e ∷ es) =
    let (g', effects) = step g e in let (g'', more) = run g' es in (g'', effects ++ more)
