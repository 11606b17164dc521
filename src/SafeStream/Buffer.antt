-- ===== src/SafeStream/Buffer.antt =====
-- aether/stream_api/safe_stream/send_data_buffer.cpp : the data that the user wrote, until it
-- is confirmed.
pub mod Marks
pub mod Contiguous
pub mod Release
pub mod Prefix
pub mod FarAhead
mod Tests
use aether_client_cpp_new.Prelude.{
  ℕ, ◌+◌, ◌-◌, Bool, ◌||◌, List, [], ◌∷◌, ◌++◌, ◌==◌, if◌then◌else◌, min, length, take, drop,
}
use aether_client_cpp_new.Ring.{clockwise, distance}
use aether_client_cpp_new.SafeStream.Action.{
  SendingDataAction, get_offset_range, mark_sending, sent_confirmed, mark_stopped, mark_failed,
}
use aether_client_cpp_new.SafeStream.Types.{max_index, u16, sub_size, in_range, before}

-- `SendDataBuffer`. `finished` are the actions that left `send_action_views_`, oldest first: the
-- action list keeps them until their `Update` has reported the outcome.
pub record SendDataBuffer : Type 0 where
  pub window_size : ℕ
  pub views : List SendingDataAction
  pub finished : List SendingDataAction
  pub buffer_size : ℕ

-- `AddData`
unfoldable pub add_data : SendDataBuffer → SendingDataAction → SendDataBuffer
add_data b a = record b {
  views = b.views ++ (a ∷ []);
  buffer_size = b.buffer_size + length a.bytes;
}

-- The loop of `GetSlice` from the action found on: the bytes, and the actions it passes marked.
-- The source reads beyond the vector if the distance exceeds its size.
unfoldable pub slice_loop : List SendingDataAction → ℕ → ℕ → List ℕ × List SendingDataAction
slice_loop [] remaining current = ([], [])
slice_loop (a ∷ more) remaining current =
    let skipped = distance max_index a.offset current in
    let data_size = min (sub_size (length a.bytes) skipped) remaining in
    let found = take data_size (drop skipped a.bytes) in
    let rest =
      slice_loop more (remaining - data_size) (clockwise max_index current (u16 data_size)) in
    if remaining - data_size == 0
    then (found, mark_sending a ∷ more)
    else (found ++ rest.0, mark_sending a ∷ rest.1)

-- `std::find_if` of `GetSlice`, then its loop
unfoldable pub slice_from : ℕ → List SendingDataAction → ℕ → ℕ → List ℕ × List SendingDataAction
slice_from window_size [] offset max_size = ([], [])
slice_from window_size (a ∷ more) offset max_size =
    let rest = slice_from window_size more offset max_size in
    if in_range (get_offset_range a window_size) offset
    then slice_loop (a ∷ more) max_size offset
    else (rest.0, a ∷ rest.1)

-- `GetSlice`: the data of the chunk, whose offset is the one asked for
unfoldable pub get_slice : SendDataBuffer → ℕ → ℕ → List ℕ × SendDataBuffer
get_slice b offset max_size =
    let (bytes, views) = slice_from b.window_size b.views offset max_size in
    (bytes, record b { views = views })

-- The `remove_if` of `Confirm`, `Reject` and `Stop`: the actions kept, those that leave, and the
-- buffer's size.
unfoldable pub remove_views :
    (SendingDataAction → Bool)
    → (SendingDataAction → SendingDataAction)
    → List SendingDataAction
    → ℕ
    → List SendingDataAction × List SendingDataAction × ℕ
remove_views test mark [] size = ([], [], size)
remove_views test mark (a ∷ more) size =
    let hit = test a in
    let (kept, gone, size') =
      remove_views test mark more (if hit then sub_size size (length a.bytes) else size) in
    if hit then (kept, mark a ∷ gone, size') else (a ∷ kept, gone, size')

unfoldable pub remove_actions :
    (SendingDataAction → Bool)
    → (SendingDataAction → SendingDataAction)
    → SendDataBuffer
    → SendDataBuffer
remove_actions test mark b =
    let (kept, gone, size) = remove_views test mark b.views b.buffer_size in
    record b { views = kept; finished = b.finished ++ gone; buffer_size = size }

unfoldable pub is_before : ℕ → ℕ → SendingDataAction → Bool
is_before window_size offset a = before (get_offset_range a window_size) offset

unfoldable pub is_reached : ℕ → ℕ → SendingDataAction → Bool
is_reached window_size offset a =
    before (get_offset_range a window_size) offset
    || in_range (get_offset_range a window_size) offset

unfoldable pub confirm : SendDataBuffer → ℕ → SendDataBuffer
confirm b offset = remove_actions (is_before b.window_size offset) sent_confirmed b

unfoldable pub reject : SendDataBuffer → ℕ → SendDataBuffer
reject b offset = remove_actions (is_reached b.window_size offset) mark_failed b

unfoldable pub stop : SendDataBuffer → ℕ → SendDataBuffer
stop b offset = remove_actions (is_reached b.window_size offset) mark_stopped b
