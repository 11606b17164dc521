-- ===== src/SafeStream/Receiving.antt =====
-- aether/stream_api/safe_stream/safe_stream_receiving.cpp: `SafeStreamReceivingAction`.
-- The events are returned beside the new state, in their order. Triggering the action and logging
-- change nothing here.
pub mod Order
pub mod Run
pub mod Stall
pub mod Delivery
mod Tests
use aether_client_cpp_new.Prelude.{
  ℕ, ◌+◌, Bool, true, false, ◌&&◌, Option, none, some, List, [], ◌∷◌, ◌++◌, map, ltb, leb, ◌==◌,
  if◌then◌else◌, length, take, min,
}
use aether_client_cpp_new.Ring.{plus, minus, distance}
use aether_client_cpp_new.SafeStream.Types.{max_index, u16, sub_size, SafeStreamConfig}

pub record ReceivingChunk : Type 0 where
  pub offset : ℕ
  pub bytes : List ℕ

pub record ExpectedChunk : Type 0 where
  pub offset : ℕ
  pub repeat_count : ℕ

pub record Receiving : Type 0 where
  pub max_window_size : ℕ
  pub max_repeat_count : ℕ
  pub send_confirm_timeout : ℕ
  pub send_repeat_timeout : ℕ
  pub last_send_confirm_time : ℕ
  pub oldest_repeat_time : ℕ
  pub last_confirmed_offset : ℕ
  pub chunks : List ReceivingChunk
  pub expected_chunks : List ExpectedChunk
  pub repeat_queue : List ℕ
  pub confirmation_queue : List ℕ
  pub repeat_count_exceeded : Bool

-- the constructor
unfoldable pub create : SafeStreamConfig → Receiving
create config = record {
  max_window_size = config.window_size;
  max_repeat_count = config.max_repeat_count;
  send_confirm_timeout = config.send_confirm_timeout;
  send_repeat_timeout = config.send_repeat_timeout;
  last_send_confirm_time = 0;
  oldest_repeat_time = 0;
  last_confirmed_offset = 0;
  chunks = [];
  expected_chunks = [];
  repeat_queue = [];
  confirmation_queue = [];
  repeat_count_exceeded = false;
}

-- the messages of `MakeResponse`
pub data Reply : Type 0 where
  confirm : ℕ → Reply
  request_repeat : ℕ → Reply

-- the offset behind a chunk
unfoldable pub chunk_end : ReceivingChunk → ℕ
chunk_end c = plus max_index c.offset (u16 (length c.bytes))

-- `AddDataChunk` on `received_data_chunks_`: `none` if the offset is there already. The flag says
-- whether the chunk was put before another, after which the expected chunks are updated.
unfoldable pub insert_chunk :
    ℕ → ReceivingChunk → List ReceivingChunk → Option (List ReceivingChunk × Bool)
unfolding chunk_end
insert_chunk window chunk [] = some (chunk ∷ [], false)
insert_chunk window chunk (c ∷ cs) =
    let overlap_size = distance max_index c.offset (chunk_end chunk) in
    let rest = insert_chunk window chunk cs in
    if leb (distance max_index chunk.offset c.offset) window
    then (if chunk.offset == c.offset
        then none
        else (if ltb 0 overlap_size && leb overlap_size window
            then some (
              record chunk { bytes = take (distance max_index chunk.offset c.offset) chunk.bytes }
                  ∷ c
                  ∷ cs,
              true,
            )
            else some (chunk ∷ c ∷ cs, true)))
    else elim rest [ none ↦ none | some (cs', placed) ↦ some (c ∷ cs', placed) ]

-- the first expected chunk of that offset taken out
unfoldable pub erase_expected : ℕ → List ExpectedChunk → List ExpectedChunk
erase_expected offset [] = []
erase_expected offset (e ∷ es) = if e.offset == offset then es else e ∷ erase_expected offset es

-- what `AddDataChunk` does with the list that is left
unfoldable pub placed_chunk : Receiving → ℕ → Option (List ReceivingChunk × Bool) → Receiving
placed_chunk r offset none = r
placed_chunk r offset (some (cs, placed)) = record r {
  chunks = cs;
  expected_chunks = if placed then erase_expected offset r.expected_chunks else r.expected_chunks;
}

-- `AddDataChunk`
unfoldable pub add_data_chunk : Receiving → ReceivingChunk → Receiving
add_data_chunk r chunk = placed_chunk r chunk.offset (insert_chunk r.max_window_size chunk r.chunks)

unfoldable pub receive_send : Receiving → ℕ → List ℕ → Receiving
receive_send r offset bytes =
    if leb r.max_window_size (distance max_index r.last_confirmed_offset offset)
    then r
    else add_data_chunk r (record { offset = offset; bytes = bytes })

unfoldable pub receive_repeat : Receiving → ℕ → List ℕ → Receiving
receive_repeat r offset bytes =
    if leb r.max_window_size (distance max_index r.last_confirmed_offset offset)
    then record r {
      confirmation_queue =
          r.confirmation_queue ++ (plus max_index offset (u16 (sub_size (length bytes) 1)) ∷ []);
    }
    else add_data_chunk r (record { offset = offset; bytes = bytes })

-- The walk of `CheckCompletedChains` with `JoinChunks`: the offset reached, the data of the chunks
-- passed, and the chunks left.
unfoldable pub join_chain : ℕ → List ReceivingChunk → ℕ × List ℕ × List ReceivingChunk
unfolding chunk_end
join_chain next [] = (next, [], [])
join_chain next (c ∷ cs) =
    let (reached, joined, left) = join_chain (chunk_end c) cs in
    if next == c.offset then (reached, c.bytes ++ joined, left) else (next, [], c ∷ cs)

-- `CheckCompletedChains`: the time, the state and the data of the receive event, empty if none
unfoldable pub check_completed_chains : Receiving → ℕ → ℕ × Receiving × List ℕ
check_completed_chains r now =
    let (next, joined, left) = join_chain r.last_confirmed_offset r.chunks in
    if ltb now (r.last_send_confirm_time + r.send_confirm_timeout)
    then (r.last_send_confirm_time + r.send_confirm_timeout, r, [])
    else (
      now,
      (if next == r.last_confirmed_offset then record r { chunks = left } else record r {
        chunks = left;
        confirmation_queue = r.confirmation_queue ++ (minus max_index next 1 ∷ []);
        last_confirmed_offset = next;
        last_send_confirm_time = now;
      }),
      joined,
    )

-- `AddExpectedChunk` on `expected_chunks_`: the count of the offset after the call, 0 if it is new
unfoldable pub count_expected : ℕ → List ExpectedChunk → List ExpectedChunk × ℕ
count_expected offset [] = (record { offset = offset; repeat_count = 0 } ∷ [], 0)
count_expected offset (e ∷ es) =
    let (es', count) = count_expected offset es in
    if e.offset == offset
    then (record e { repeat_count = u16 (e.repeat_count + 1) } ∷ es, u16 (e.repeat_count + 1))
    else (e ∷ es', count)

unfoldable pub add_expected_chunk : Receiving → ℕ → Receiving
unfolding count_expected
add_expected_chunk r offset =
    let (es, count) = count_expected offset r.expected_chunks in
    if ltb r.max_repeat_count count
    then record r { expected_chunks = es; repeat_count_exceeded = true }
    else record r { expected_chunks = es; repeat_queue = r.repeat_queue ++ (offset ∷ []) }

-- the loop of `CheckMissedOffset`
unfoldable pub missed_loop : ℕ → List ReceivingChunk → Receiving → Receiving
unfolding chunk_end
missed_loop next [] r = r
missed_loop next (c ∷ cs) r =
    missed_loop (chunk_end c) cs (if c.offset == next then r else add_expected_chunk r next)

unfoldable pub check_missed_offset : Receiving → ℕ → ℕ × Receiving
check_missed_offset r now =
    if ltb now (r.oldest_repeat_time + r.send_repeat_timeout)
    then (r.oldest_repeat_time + r.send_repeat_timeout, r)
    else (now, record (missed_loop r.last_confirmed_offset r.chunks r) { oldest_repeat_time = now })

-- `CheckChunkChains`
unfoldable pub check_chunk_chains : Receiving → ℕ → ℕ × Receiving × List ℕ
check_chunk_chains r now =
    let (conf_time, r', joined) = check_completed_chains r now in
    let (rep_time, r'') = check_missed_offset r' now in (min conf_time rep_time, r'', joined)

-- `MakeResponse`: the messages of the packet, none if there is no packet
unfoldable pub make_response : Receiving → Receiving × List Reply
make_response r = (
  record r { confirmation_queue = []; repeat_queue = [] },
  map confirm r.confirmation_queue ++ map request_repeat r.repeat_queue,
)

pub record Outcome : Type 0 where
  pub time : ℕ
  pub received : List ℕ
  pub replies : List Reply
  pub failed : Bool

-- `Update`
unfoldable pub update : Receiving → ℕ → Receiving × Outcome
update r now =
    let (time, r', joined) = check_chunk_chains r now in
    let (r'', replies) = make_response r' in
    if r'.repeat_count_exceeded
    then (
      record r' { repeat_count_exceeded = false; repeat_queue = [] },
      record { time = time; received = joined; replies = []; failed = true },
    )
    else (r'', record { time = time; received = joined; replies = replies; failed = false })
