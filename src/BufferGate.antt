-- ===== src/BufferGate.antt =====
-- aether/stream_api/buffer_gate.cpp: `BufferGate`, with `StreamInfo` of istream.h and the states of
-- stream_write_action.h. A queued write has a number in place of its list iterator. What a call
-- emits or hands on is the list of its effects; the out gate does not call back while it is written
-- to, and what becomes of a write there comes back as a later event.
pub mod Actions
pub mod Waiting
pub mod Order
pub mod Room
pub mod Drain
mod Tests
use aether_client_cpp_new.Prelude.{
  ℕ, ◌+◌, Bool, true, false, not, ◌&&◌, ◌||◌, Option, none, some, List, [], ◌∷◌, ◌++◌, ◌==◌,
  if◌then◌else◌, length,
}
use aether_client_cpp_new.StateMachine.{StateMachine, of_state, set, acquire}

pub record StreamInfo : Type 0 where
  pub max_element_size : ℕ
  pub is_linked : Bool
  pub is_writeble : Bool
  pub is_soft_writable : Bool

-- `operator==` of Booleans and of `StreamInfo`
unfoldable pub same_flag : Bool → Bool → Bool
same_flag true b = b
same_flag false b = not b

unfoldable pub same_info : StreamInfo → StreamInfo → Bool
unfolding same_flag
same_info left right =
    (left.max_element_size == right.max_element_size)
    && (same_flag left.is_linked right.is_linked
        && (same_flag left.is_soft_writable right.is_soft_writable
            && same_flag left.is_writeble right.is_writeble))

-- `StreamWriteAction::State`
pub data WriteState : Type 0 where
  queued in_progress done timeout stopped failed panic : WriteState

unfoldable pub WriteState-discrete : Discrete WriteState
WriteState-discrete = hlevel

-- `BufferedWriteAction`
pub record BufferedWrite : Type 0 where
  pub id : ℕ
  pub bytes : List ℕ
  pub current_time : ℕ
  pub is_sent : Bool
  pub state : StateMachine WriteState

pub record BufferGate : Type 0 where
  pub buffer_max : ℕ
  pub info : StreamInfo
  pub last_out_info : StreamInfo
  pub queue : List BufferedWrite
  pub next_id : ℕ

-- a write to the out gate, a stop of a write there, a failed write action, an update event
pub data Effect : Type 0 where
  wrote : List ℕ → ℕ → Effect
  stopped_out : ℕ → Effect
  declined updated : Effect

abbrev pub no_info : StreamInfo
no_info = record {
  max_element_size = 0;
  is_linked = false;
  is_writeble = false;
  is_soft_writable = false;
}

-- the constructor
unfoldable pub create : ℕ → BufferGate
create buffer_max = record {
  buffer_max = buffer_max;
  info = record no_info { is_soft_writable = true };
  last_out_info = no_info;
  queue = [];
  next_id = 0;
}

-- the constructor of `BufferedWriteAction`
unfoldable pub new_write : ℕ → List ℕ → ℕ → BufferedWrite
unfolding of_state
new_write id bytes now = record {
  id = id;
  bytes = bytes;
  current_time = now;
  is_sent = false;
  state = of_state queued;
}

-- `SetSoftWriteable`
unfoldable pub set_soft_writeable : BufferGate → Bool → BufferGate × List Effect
unfolding same_flag
set_soft_writeable g value =
    if same_flag g.info.is_soft_writable value
    then (g, [])
    else (record g { info = record g.info { is_soft_writable = value } }, updated ∷ [])

-- `DrainBuffer`, with `Send`
unfoldable pub drain_buffer : Bool → List BufferedWrite → List BufferedWrite × List Effect
drain_buffer is_writeble [] = ([], [])
drain_buffer is_writeble (a ∷ more) =
    let (rest, effects) = drain_buffer is_writeble more in
    if not is_writeble
    then (a ∷ more, [])
    else (if a.is_sent
        then (a ∷ rest, effects)
        else (record a { is_sent = true } ∷ rest, wrote a.bytes a.current_time ∷ effects))

unfoldable pub drained : BufferGate → BufferGate × List Effect
unfolding drain_buffer
drained g =
    let (queue, effects) = drain_buffer g.last_out_info.is_writeble g.queue in
    (record g { queue = queue }, effects)

unfoldable pub is_empty : List BufferedWrite → Bool
is_empty [] = true
is_empty (a ∷ more) = false

-- the buffered write of `Write`
unfoldable pub buffered : BufferGate → List ℕ → ℕ → BufferGate × List Effect
unfolding set_soft_writeable new_write
buffered g bytes now =
    let g' : BufferGate = record g {
      queue = g.queue ++ (new_write g.next_id bytes now ∷ []);
      next_id = g.next_id + 1;
    } in
    if length g'.queue == g.buffer_max then set_soft_writeable g' false else (g', [])

unfoldable pub write : BufferGate → List ℕ → ℕ → BufferGate × List Effect
unfolding is_empty buffered
write g bytes now =
    let add_to_buffer = not g.last_out_info.is_writeble || not g.last_out_info.is_linked in
    if add_to_buffer || not (is_empty g.queue)
    then (if g.info.is_soft_writable then buffered g bytes now else (g, declined ∷ []))
    else (g, wrote bytes now ∷ [])

-- `UpdateGate`, called with the out gate's information
unfoldable pub update_gate : BufferGate → StreamInfo → BufferGate × List Effect
unfolding same_info drained
update_gate g out_info =
    let changed = not (same_info g.last_out_info out_info) in
    let g' : BufferGate =
      if changed
      then record g {
        info = record out_info { is_soft_writable = g.info.is_soft_writable };
        last_out_info = out_info;
      }
      else g in
    let note : List Effect = if changed then updated ∷ [] else [] in
    let (g'', effects) = drained g' in
    if g'.info.is_linked then (g'', note ++ effects) else (g', note)

unfoldable pub find_write : ℕ → List BufferedWrite → Option BufferedWrite
find_write id [] = none
find_write id (a ∷ more) = let found = find_write id more in if a.id == id then some a else found

unfoldable pub erase_write : ℕ → List BufferedWrite → List BufferedWrite
erase_write id [] = []
erase_write id (a ∷ more) = let rest = erase_write id more in if a.id == id then more else a ∷ rest

unfoldable pub set_write : BufferedWrite → List BufferedWrite → List BufferedWrite
set_write b [] = []
set_write b (a ∷ more) = let rest = set_write b more in if a.id == b.id then b ∷ more else a ∷ rest

-- `remove_action` of `Write`, called when the write with that number has finished
unfoldable pub remove_action : BufferGate → ℕ → BufferGate × List Effect
unfolding set_soft_writeable drained erase_write
remove_action g id =
    let (g', notes) = set_soft_writeable (record g { queue = erase_write id g.queue }) true in
    let (g'', effects) = drained g' in (g'', notes ++ effects)
