-- ===== src/SafeStream/Sending.antt =====
-- aether/stream_api/safe_stream/safe_stream_sending.cpp: `SafeStreamSendingAction`.
-- The write event's packets are returned beside the new state. Triggering the action and logging
-- change nothing here.
pub mod Run
pub mod Capacity
pub mod Window
pub mod Genuine
pub mod Adding
pub mod Slicing
pub mod Serving
pub mod Stream
pub mod Packets
mod Tests
use aether_client_cpp_new.Prelude.{
  ℕ, ◌+◌, Option, none, some, List, [], ◌∷◌, ◌++◌, ltb, leb, ◌==◌, if◌then◌else◌, length,
}
use aether_client_cpp_new.Ring.{plus, clockwise, distance}
use aether_client_cpp_new.SafeStream.Types.{
  max_index, u16, sub_size, SendingChunk, SafeStreamConfig,
}
use aether_client_cpp_new.SafeStream.Chunks.{register, remove_up_to}
use aether_client_cpp_new.SafeStream.Buffer.{
  SendDataBuffer, add_data, get_slice, confirm, reject, stop,
}
use aether_client_cpp_new.SafeStream.Action.{
  SendingDataAction, new_action, get_offset_range, stop_requested,
}

pub record Sending : Type 0 where
  pub buffer_capacity : ℕ
  pub window_size : ℕ
  pub max_repeat_count : ℕ
  pub wait_confirm_timeout : ℕ
  pub max_data_size : ℕ
  pub buffer : SendDataBuffer
  pub chunks : List SendingChunk
  pub last_confirmed : ℕ
  pub next_to_add : ℕ
  pub last_sent_offset : ℕ

-- the message of `SendFirst` and of `SendRepeat`, as `WriteDataBuffer` emits it
pub data Packet : Type 0 where
  send : ℕ → List ℕ → Packet
  repeat : ℕ → ℕ → List ℕ → Packet

-- the constructor
unfoldable pub create : SafeStreamConfig → Sending
create config = record {
  buffer_capacity = config.buffer_capacity;
  window_size = config.window_size;
  max_repeat_count = config.max_repeat_count;
  wait_confirm_timeout = config.wait_confirm_timeout;
  max_data_size = 0;
  buffer = record { window_size = config.window_size; views = []; finished = []; buffer_size = 0 };
  chunks = [];
  last_confirmed = 0;
  next_to_add = 0;
  last_sent_offset = 0;
}

-- `SendData(DataBuffer)`: the user's write, refused if the buffer has no room
unfoldable pub add : Sending → List ℕ → Sending × Option SendingDataAction
unfolding get_offset_range
add s bytes =
    let a = new_action s.next_to_add bytes in
    if ltb s.buffer_capacity (s.buffer.buffer_size + length bytes) then (s, none) else (
      record s {
        next_to_add = plus max_index (get_offset_range a s.window_size).end 1;
        buffer = add_data s.buffer a;
      },
      some a,
    )

-- `ConfirmDataChunks`
unfoldable pub confirm_data_chunks : Sending → ℕ → Sending
confirm_data_chunks s offset = record s {
  chunks = remove_up_to s.window_size offset s.chunks;
  buffer = confirm s.buffer offset;
}

-- `Confirm`
unfoldable pub confirmed : Sending → ℕ → Sending
unfolding confirm_data_chunks
confirmed s offset =
    if leb (distance max_index s.last_confirmed offset) s.window_size
    then record (confirm_data_chunks s offset) { last_confirmed = plus max_index offset 1 }
    else s

-- `RequestRepeatSend`: a request for an offset that is too old is logged, and followed all the same
unfoldable pub request_repeat_send : Sending → ℕ → Sending
request_repeat_send s offset = record s { last_sent_offset = offset }

-- `ReportWriteStopped` and `ReportWriteError`; `ReportWriteSuccess` does nothing
unfoldable pub report_write_failed : Sending → ℕ → Sending
report_write_failed s offset = record s {
  chunks = remove_up_to s.window_size offset s.chunks;
  buffer = reject s.buffer offset;
}

-- `StopSending`
unfoldable pub stop_sending : Sending → ℕ → Sending
stop_sending s offset = record s {
  chunks = remove_up_to s.window_size offset s.chunks;
  buffer = stop s.buffer offset;
}

-- `SendingDataAction::Stop` of an action of this buffer, through its stop event
unfoldable pub stop_action : Sending → SendingDataAction → Sending
unfolding stop_sending
stop_action s a = if stop_requested a then stop_sending s a.offset else s

-- `set_max_data_size`
unfoldable pub set_max_data_size : Sending → ℕ → Sending
set_max_data_size s size = record s { max_data_size = u16 size }

-- `HandleTimeouts`, by the chunks that wait
unfoldable pub front_timeout : Sending → ℕ → List SendingChunk → ℕ × Sending
front_timeout s now [] = (now, s)
front_timeout s now (c ∷ cs) =
    if ltb (c.send_time + s.wait_confirm_timeout) now
    then (now, record s { last_sent_offset = c.begin_offset })
    else (c.send_time + s.wait_confirm_timeout, s)

unfoldable pub handle_timeouts : Sending → ℕ → ℕ × Sending
handle_timeouts s now = front_timeout s now s.chunks

-- What `SendData(TimePoint)` does with a slice that is not empty. The source reads the end offset
-- of `send_chunk` a second time after `RemoveUpTo` has freed it; the model reads the old value.
unfoldable pub send_slice : Sending → ℕ → List ℕ → SendDataBuffer → Sending × Option Packet
send_slice s now bytes buffer =
    let offset = s.last_sent_offset in
    let end = plus max_index offset (u16 (sub_size (length bytes) 1)) in
    let (others, chunk) = register s.window_size offset end now s.chunks in
    let s' : Sending = record s {
      buffer = buffer;
      last_sent_offset = clockwise max_index offset (u16 (length bytes));
      chunks = others ++ (record chunk { repeat_count = u16 (chunk.repeat_count + 1) } ∷ []);
    } in
    if chunk.repeat_count == 0
    then (s', some (send offset bytes))
    else (if ltb s.max_repeat_count chunk.repeat_count
        then (
          record s' {
            chunks = remove_up_to s.window_size chunk.end_offset (others ++ (chunk ∷ []));
            buffer = reject buffer chunk.end_offset;
          },
          none,
        )
        else (s', some (repeat chunk.repeat_count offset bytes)))

-- `SendData(TimePoint)` after `GetSlice`
unfoldable pub send_found : Sending → ℕ → List ℕ → SendDataBuffer → Sending × Option Packet
send_found s now [] buffer = (record s { buffer = buffer }, none)
send_found s now (b ∷ bs) buffer = send_slice s now (b ∷ bs) buffer

-- `SendData(TimePoint)`
unfoldable pub send_data : Sending → ℕ → Sending × Option Packet
send_data s now =
    let (bytes, buffer) = get_slice s.buffer s.last_sent_offset s.max_data_size in
    if ltb s.window_size
      (distance max_index s.last_confirmed (plus max_index s.last_sent_offset s.max_data_size))
    then (s, none)
    else send_found s now bytes buffer

-- `Update`: the time to call it again, and the packet written
unfoldable pub update : Sending → ℕ → ℕ × Sending × Option Packet
update s now =
    let (time, s') = handle_timeouts s now in
    if s'.max_data_size == 0
    then (time, s', none)
    else (let (s'', packet) = send_data s' now in (time, s'', packet))
