-- ===== src/SafeStream/Chunks.antt =====
-- aether/stream_api/safe_stream/sending_chunk_list.cpp: the chunks that wait for a confirmation.
pub mod Indices
use aether_client_cpp_new.Prelude.{
  ℕ, Bool, true, false, ◌&&◌, Option, none, some, List, [], ◌∷◌, ◌==◌, if◌then◌else◌, min,
}
use aether_client_cpp_new.Ring.{plus, minus}
use aether_client_cpp_new.SafeStream.Types.{max_index, OffsetRange, in_range, before, SendingChunk}

-- `std::find_if` with what stands before and behind the element found.
unfoldable pub find_chunk :
    (SendingChunk → Bool) → List SendingChunk → Option (SendingChunk × List SendingChunk)
find_chunk test [] = none
find_chunk test (c ∷ cs) = elim (test c) [
  | true ↦ some (c, cs)
  | false ↦ elim (find_chunk test cs) [ none ↦ none | some (d, rest) ↦ some (d, c ∷ rest) ]
]

-- The `remove_if` of `Register` over the chunks before the new one. `found` is the repeat count of
-- the chunk that was found, `count` that of the new chunk so far.
unfoldable pub trim : OffsetRange → ℕ → List SendingChunk → ℕ → List SendingChunk × ℕ
trim r found [] count = ([], count)
trim r found (c ∷ cs) count =
    let head_in = in_range r c.begin_offset in
    let tail_in = in_range r c.end_offset in
    let count' =
      if head_in
      then min found c.repeat_count
      else (if tail_in then min found c.repeat_count else count) in
    let (rest, last) = trim r found cs count' in
    if head_in
    then (if tail_in
        then (rest, last)
        else (record c { begin_offset = plus max_index r.end 1 } ∷ rest, last))
    else (if tail_in
        then (record c { end_offset = minus max_index r.begin 1 } ∷ rest, last)
        else (c ∷ rest, last))

-- `Register`: the chunks before the one that it returns a reference to, and that one, which is
-- always the last of the list.
unfoldable pub register : ℕ → ℕ → ℕ → ℕ → List SendingChunk → List SendingChunk × SendingChunk
unfolding find_chunk trim
register window_size begin end send_time chunks =
    let r : OffsetRange = record { begin = begin; end = end; window_size = window_size } in
    elim (find_chunk (λ c. in_range r c.begin_offset) chunks) [
      | none ↦ (
        chunks,
        record { begin_offset = begin; end_offset = end; repeat_count = 0; send_time = send_time },
      )
      | some (c, others) ↦
          if (begin == c.begin_offset) && (end == c.end_offset)
          then (others, record c { send_time = send_time })
          else (let (rest, count) = trim r c.repeat_count chunks c.repeat_count in
              (
                rest,
                record {
                  begin_offset = begin;
                  end_offset = end;
                  repeat_count = count;
                  send_time = send_time;
                },
              ))
    ]

-- `RemoveUpTo`
unfoldable pub remove_up_to : ℕ → ℕ → List SendingChunk → List SendingChunk
remove_up_to window_size offset [] = []
remove_up_to window_size offset (c ∷ cs) =
    let r : OffsetRange = record {
      begin = c.begin_offset;
      end = c.end_offset;
      window_size = window_size;
    } in
    let rest = remove_up_to window_size offset cs in
    if before r offset
    then rest
    else (if in_range r offset
        then (if offset == c.end_offset then rest else record c { begin_offset = offset } ∷ rest)
        else c ∷ rest)
