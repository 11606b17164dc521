-- ===== src/SafeStream/Sending/Window.antt =====
-- What the sender of safe_stream_sending.cpp writes: size, window, and repeat limit.
use aether_client_cpp_new.Prelude.{
  ℕ, ◌+◌, ◌-◌, ◌≤◌, ◌<◌, ◌≡◌, refl, List, [], ◌∷◌, arith, length, length-append, Bool-cases, inl,
  inr, ltb, ◌==◌, Option, none, some, min, take, drop, length-take,
}
use aether_client_cpp_new.Ring.{distance, plus, clockwise}
use aether_client_cpp_new.Ring.Laws.{plus_plain, clockwise_plain, distance_ahead}
use aether_client_cpp_new.SafeStream.Types.{max_index, u16, sub_size, in_range}
use aether_client_cpp_new.SafeStream.Chunks.{register}
use aether_client_cpp_new.SafeStream.Action.{SendingDataAction, get_offset_range}
use aether_client_cpp_new.SafeStream.Buffer.{SendDataBuffer, slice_loop, slice_from, get_slice}
use aether_client_cpp_new.SafeStream.Sending.{
  Sending, Packet, send, repeat, send_slice, send_found, send_data,
}

slice_loop-length-le :
    (views : List SendingDataAction) (remaining current : ℕ)
    → length (slice_loop views remaining current).0 ≤ remaining
unfolding slice_loop
slice_loop-length-le [] remaining current = omega arith
slice_loop-length-le (a ∷ more) remaining current =
    let skipped = distance max_index a.offset current in
    let data_size = min (sub_size (length a.bytes) skipped) remaining in
    let found = take data_size (drop skipped a.bytes) in
    let later =
      slice_loop more (remaining - data_size) (clockwise max_index current (u16 data_size)) in
    elim (Bool-cases (remaining - data_size == 0)) [
      | inl e ↦ rw e (omega (arith, length-take data_size (drop skipped a.bytes)))
      | inr e ↦ rw e (
          omega (
            arith,
            length-take data_size (drop skipped a.bytes),
            length-append found later.0,
            slice_loop-length-le more (remaining - data_size)
                (clockwise max_index current (u16 data_size)),
          ))
    ]

slice_from-length-le :
    (window : ℕ) (views : List SendingDataAction) (offset max_size : ℕ)
    → length (slice_from window views offset max_size).0 ≤ max_size
unfolding slice_from
slice_from-length-le window [] offset max_size = omega arith
slice_from-length-le window (a ∷ more) offset max_size =
    elim (Bool-cases (in_range (get_offset_range a window) offset)) [
      | inl e ↦ rw e (slice_loop-length-le (a ∷ more) max_size offset)
      | inr e ↦ rw e (slice_from-length-le window more offset max_size)
    ]

abbrev pub offset_of : Packet → ℕ
offset_of (send offset bytes) = offset
offset_of (repeat count offset bytes) = offset

abbrev pub bytes_of : Packet → List ℕ
bytes_of (send offset bytes) = bytes
bytes_of (repeat count offset bytes) = bytes

-- how often the data were written before
abbrev pub count_of : Packet → ℕ
count_of (send offset bytes) = 0
count_of (repeat count offset bytes) = count

-- what a write of the sender keeps to
pub record Writes (s : Sending) (out : Sending) (p : Packet) : Type 0 where
  pub offset : offset_of p ≡ s.last_sent_offset
  pub some_data : 0 < length (bytes_of p)
  pub size : length (bytes_of p) ≤ s.max_data_size
  pub in_window : offset_of p + length (bytes_of p) ≤ s.last_confirmed + s.window_size
  pub moved : out.last_sent_offset ≡ offset_of p + length (bytes_of p)
  pub repeats : count_of p ≤ s.max_repeat_count

abbrev WritesAll : Sending → Sending × Option Packet → Type 0
WritesAll s (out, none) = Unit
WritesAll s (out, some p) = Writes s out p

send_slice-WritesAll :
    (s : Sending) (now : ℕ) (bytes : List ℕ) (b : SendDataBuffer)
    → 0 < length bytes
    → length bytes ≤ s.max_data_size
    → s.last_sent_offset + s.max_data_size < max_index
    → s.last_sent_offset + s.max_data_size ≤ s.last_confirmed + s.window_size
    → WritesAll s (send_slice s now bytes b)
unfolding send_slice
send_slice-WritesAll s now bytes b some_data size top room =
    let end = plus max_index s.last_sent_offset (u16 (sub_size (length bytes) 1)) in
    let count = (register s.window_size s.last_sent_offset end now s.chunks).1.repeat_count in
    let small : u16 (length bytes) ≡ length bytes = omega arith in
    let moved : clockwise max_index s.last_sent_offset (u16 (length bytes))
        ≡ s.last_sent_offset + length bytes =
      rw small
        (clockwise_plain max_index s.last_sent_offset (length bytes) (omega arith) (omega arith)) in
    elim (Bool-cases (count == 0)) [
      | inl e ↦ rw e (record {
        offset = refl;
        some_data = some_data;
        size = size;
        in_window = omega arith;
        moved = moved;
        repeats = omega arith;
      })
      | inr e ↦ elim (Bool-cases (ltb s.max_repeat_count count)) [
        | inl f ↦ rw (e, f) tt
        | inr f ↦
            rw (e, f)
              (record {
                offset = refl;
                some_data = some_data;
                size = size;
                in_window = omega arith;
                moved = moved;
                repeats = ground (arith, f);
              })
      ]
    ]

send_found-WritesAll :
    (s : Sending) (now : ℕ) (bytes : List ℕ) (b : SendDataBuffer)
    → length bytes ≤ s.max_data_size
    → s.last_sent_offset + s.max_data_size < max_index
    → s.last_sent_offset + s.max_data_size ≤ s.last_confirmed + s.window_size
    → WritesAll s (send_found s now bytes b)
unfolding send_found
send_found-WritesAll s now [] b size top room = tt
send_found-WritesAll s now (x ∷ xs) b size top room =
    send_slice-WritesAll s now (x ∷ xs) b (omega arith) size top room

send_data-WritesAll :
    (s : Sending) (now : ℕ)
    → s.last_confirmed ≤ s.last_sent_offset
    → s.last_sent_offset + s.max_data_size < max_index
    → WritesAll s (send_data s now)
unfolding send_data get_slice
send_data-WritesAll s now order top =
    let next : plus max_index s.last_sent_offset s.max_data_size
        ≡ s.last_sent_offset + s.max_data_size =
      plus_plain max_index s.last_sent_offset s.max_data_size (omega arith) (omega arith) in
    let ahead : distance max_index s.last_confirmed (s.last_sent_offset + s.max_data_size)
        ≡ s.last_sent_offset + s.max_data_size - s.last_confirmed =
      distance_ahead max_index s.last_confirmed (s.last_sent_offset + s.max_data_size) (omega arith)
        (omega arith) in
    rw (next, ahead)
      (elim (Bool-cases
        (ltb s.window_size (s.last_sent_offset + s.max_data_size - s.last_confirmed))) [
          | inl e ↦ rw e tt
          | inr e ↦ rw e (
              send_found-WritesAll s now _ _
                (slice_from-length-le s.buffer.window_size s.buffer.views s.last_sent_offset
                  s.max_data_size)
                top (ground (arith, e)))
        ])

-- Below the wrap, and with the confirmed offset not ahead of the next one to send: whatever packet
-- `SendData` writes starts at that offset, has at least one byte and at most the maximal data size,
-- ends within the window from the confirmed offset on, moves the next offset to its end, and
-- repeats its data no more often than the limit.
pub send_data_window :
    (s : Sending) (now : ℕ) (p : Packet)
    → s.last_confirmed ≤ s.last_sent_offset
    → s.last_sent_offset + s.max_data_size < max_index
    → (send_data s now).1 ≡ some p
    → Writes s (send_data s now).0 p
send_data_window s now p order top e = rw e at (send_data-WritesAll s now order top)
