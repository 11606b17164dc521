-- ===== src/SafeStream/Sending/Capacity.antt =====
-- The buffer of the sender of safe_stream_sending.cpp counts its bytes and keeps to its capacity.
use aether_client_cpp_new.Prelude.{
  ℕ, ◌+◌, ◌-◌, ◌^◌, ◌≤◌, ◌<◌, ◌≡◌, refl, ◌∙◌, ap, sym, List, [], ◌∷◌, ◌++◌, arith, length,
  length-append, Bool, Bool-cases, inl, inr, ltb, leb, ◌==◌, append_assoc, min,
}
use aether_client_cpp_new.Ring.{distance, plus, clockwise}
use aether_client_cpp_new.SafeStream.Types.{
  max_index, u16, sub_size, in_range, SafeStreamConfig, SendingChunk,
}
use aether_client_cpp_new.SafeStream.Chunks.{register}
use aether_client_cpp_new.SafeStream.Action.{
  SendingDataAction, new_action, get_offset_range, mark_sending, stop_requested,
}
use aether_client_cpp_new.SafeStream.Buffer.{
  SendDataBuffer, slice_loop, slice_from, get_slice, remove_actions, add_data, confirm, reject,
  stop, remove_views,
}
use aether_client_cpp_new.SafeStream.Buffer.Contiguous.{joined}
use aether_client_cpp_new.SafeStream.Buffer.Release.{remove_views-size, remove_views-lists, others}
use aether_client_cpp_new.SafeStream.Sending.{
  Sending, create, add, confirmed, request_repeat_send, report_write_failed, stop_action,
  set_max_data_size, handle_timeouts, front_timeout, send_found, send_slice, send_data, update,
}
use aether_client_cpp_new.SafeStream.Sending.Run.{
  Event, write, on_confirm, on_request_repeat, write_failed, stop_write, set_size, tick, step, run,
}

joined-slice_loop :
    (views : List SendingDataAction) (remaining current : ℕ)
    → joined (slice_loop views remaining current).1 ≡ joined views
unfolding slice_loop mark_sending
joined-slice_loop [] remaining current = refl
joined-slice_loop (a ∷ more) remaining current =
    let skipped = distance max_index a.offset current in
    let data_size = min (sub_size (length a.bytes) skipped) remaining in
    elim (Bool-cases (remaining - data_size == 0)) [
      | inl e ↦ rw e refl
      | inr e ↦ rw e (
          ap (λ t. a.bytes ++ t)
            (joined-slice_loop more (remaining - data_size)
              (clockwise max_index current (u16 data_size))))
    ]

joined-slice_from :
    (window : ℕ) (views : List SendingDataAction) (offset max_size : ℕ)
    → joined (slice_from window views offset max_size).1 ≡ joined views
unfolding slice_from
joined-slice_from window [] offset max_size = refl
joined-slice_from window (a ∷ more) offset max_size =
    elim (Bool-cases (in_range (get_offset_range a window) offset)) [
      | inl e ↦ rw e (joined-slice_loop (a ∷ more) max_size offset)
      | inr e ↦ rw e (ap (λ t. a.bytes ++ t) (joined-slice_from window more offset max_size))
    ]

pub joined-append : (xs ys : List SendingDataAction) → joined (xs ++ ys) ≡ joined xs ++ joined ys
joined-append [] ys = refl
joined-append (a ∷ xs) ys =
    ap (λ t. a.bytes ++ t) (joined-append xs ys)
    ∙ sym (append_assoc a.bytes (joined xs) (joined ys))

-- The buffer counts its bytes, and they fit its capacity, a `uint16_t`.
pub record IsWithin (s : Sending) : Type 0 where
  pub counted : s.buffer.buffer_size ≡ length (joined s.buffer.views)
  pub room : s.buffer.buffer_size ≤ s.buffer_capacity
  pub capacity : s.buffer_capacity < 2 ^ 16

-- a buffer that counts its bytes, of which there are no more than in another
record Shrinks (b b' : SendDataBuffer) : Type 0 where
  counted : b'.buffer_size ≡ length (joined b'.views)
  less : b'.buffer_size ≤ b.buffer_size

joined-others-le :
    (test : SendingDataAction → Bool) (views : List SendingDataAction)
    → length (joined (others test views)) ≤ length (joined views)
joined-others-le test [] = omega arith
joined-others-le test (a ∷ more) = elim (Bool-cases (test a)) [
  | inl e ↦ rw e (omega (arith, joined-others-le test more, length-append a.bytes (joined more)))
  | inr e ↦ rw e (
      omega (
        arith,
        joined-others-le test more,
        length-append a.bytes (joined more),
        length-append a.bytes (joined (others test more)),
      ))
]

remove_actions-Shrinks :
    (test : SendingDataAction → Bool) (mark : SendingDataAction → SendingDataAction)
    (b : SendDataBuffer)
    → b.buffer_size ≡ length (joined b.views)
    → b.buffer_size < 2 ^ 64
    → Shrinks b (remove_actions test mark b)
unfolding remove_actions
remove_actions-Shrinks test mark b count small =
    let (left, went) = remove_views-lists test mark b.views b.buffer_size in
    let size : (remove_views test mark b.views b.buffer_size).2 + length (joined b.views)
        ≡ b.buffer_size + length (joined (others test b.views)) =
      remove_views-size test mark b.views b.buffer_size (omega arith) small in
    let same : length (joined (remove_views test mark b.views b.buffer_size).0)
        ≡ length (joined (others test b.views)) =
      ap (λ l. length (joined l)) left in
    record { counted = omega arith; less = omega (arith, joined-others-le test b.views) }

Shrinks-IsWithin :
    (s s' : Sending)
    → s'.buffer_capacity ≡ s.buffer_capacity
    → Shrinks s.buffer s'.buffer
    → IsWithin s
    → IsWithin s'
Shrinks-IsWithin s s' cap sh w = record {
  counted = sh.counted;
  room = omega (arith, sh.less, w.room, cap);
  capacity = omega (arith, w.capacity, cap);
}

add-IsWithin : (s : Sending) (bytes : List ℕ) → IsWithin s → IsWithin (add s bytes).0
unfolding add new_action add_data
add-IsWithin s bytes w =
    elim (Bool-cases (ltb s.buffer_capacity (s.buffer.buffer_size + length bytes))) [
      | inl e ↦ rw e w
      | inr e ↦ rw e (record {
        counted = omega (
          arith,
          w.counted,
          ap length (joined-append s.buffer.views (new_action s.next_to_add bytes ∷ [])),
          length-append (joined s.buffer.views) (bytes ++ []),
          length-append bytes [],
        );
        room = ground (arith, e);
        capacity = w.capacity;
      })
    ]

-- the three removals, by the sender's handlers
removed-IsWithin :
    (s s' : Sending) (test : SendingDataAction → Bool)
    (mark : SendingDataAction → SendingDataAction)
    → s'.buffer ≡ remove_actions test mark s.buffer
    → s'.buffer_capacity ≡ s.buffer_capacity
    → IsWithin s
    → IsWithin s'
removed-IsWithin s s' test mark e cap w =
    Shrinks-IsWithin s s' cap
      (rw e
        (remove_actions-Shrinks test mark s.buffer w.counted (omega (arith, w.room, w.capacity))))
      w

confirmed-IsWithin : (s : Sending) (offset : ℕ) → IsWithin s → IsWithin (confirmed s offset)
unfolding confirmed confirm
confirmed-IsWithin s offset w =
    elim (Bool-cases (leb (distance max_index s.last_confirmed offset) s.window_size)) [
      | inl e ↦ rw e (removed-IsWithin s _ _ _ refl refl w)
      | inr e ↦ rw e w
    ]

report_write_failed-IsWithin :
    (s : Sending) (offset : ℕ) → IsWithin s → IsWithin (report_write_failed s offset)
unfolding report_write_failed reject
report_write_failed-IsWithin s offset w = removed-IsWithin s _ _ _ refl refl w

stop_action-IsWithin :
    (s : Sending) (a : SendingDataAction) → IsWithin s → IsWithin (stop_action s a)
unfolding stop_action stop
stop_action-IsWithin s a w = elim (Bool-cases (stop_requested a)) [
  | inl e ↦ rw e (removed-IsWithin s _ _ _ refl refl w)
  | inr e ↦ rw e w
]

-- the sender after `GetSlice`
sliced-IsWithin :
    (s s' : Sending) (offset size : ℕ)
    → s'.buffer ≡ (get_slice s.buffer offset size).1
    → s'.buffer_capacity ≡ s.buffer_capacity
    → IsWithin s
    → IsWithin s'
unfolding get_slice
sliced-IsWithin s s' offset size e cap w =
    let same : length (joined (slice_from s.buffer.window_size s.buffer.views offset size).1)
        ≡ length (joined s.buffer.views) =
      ap length (joined-slice_from s.buffer.window_size s.buffer.views offset size) in
    Shrinks-IsWithin s s' cap
      (rw e (record { counted = omega (arith, w.counted, same); less = omega arith })) w

send_slice-IsWithin :
    (s : Sending) (now : ℕ) (bytes : List ℕ) (b : SendDataBuffer)
    → IsWithin (record s { buffer = b })
    → IsWithin (send_slice s now bytes b).0
unfolding send_slice reject
send_slice-IsWithin s now bytes b w =
    let end = plus max_index s.last_sent_offset (u16 (sub_size (length bytes) 1)) in
    let count = (register s.window_size s.last_sent_offset end now s.chunks).1.repeat_count in
    elim (Bool-cases (count == 0)) [
      | inl e ↦ rw e (record { counted = w.counted; room = w.room; capacity = w.capacity })
      | inr e ↦ elim (Bool-cases (ltb s.max_repeat_count count)) [
        | inl f ↦ rw (e, f) (removed-IsWithin (record s { buffer = b }) _ _ _ refl refl w)
        | inr f ↦ rw (e, f) (record { counted = w.counted; room = w.room; capacity = w.capacity })
      ]
    ]

send_found-IsWithin :
    (s : Sending) (now : ℕ) (bytes : List ℕ) (b : SendDataBuffer)
    → IsWithin (record s { buffer = b })
    → IsWithin (send_found s now bytes b).0
unfolding send_found
send_found-IsWithin s now [] b w = w
send_found-IsWithin s now (x ∷ xs) b w = send_slice-IsWithin s now (x ∷ xs) b w

send_data-IsWithin : (s : Sending) (now : ℕ) → IsWithin s → IsWithin (send_data s now).0
unfolding send_data
send_data-IsWithin s now w =
    elim (Bool-cases (
      ltb s.window_size (
        distance max_index s.last_confirmed (plus max_index s.last_sent_offset s.max_data_size)))) [
          | inl e ↦ rw e w
          | inr e ↦ rw e (
              send_found-IsWithin s now _ (get_slice s.buffer s.last_sent_offset s.max_data_size).1
                (sliced-IsWithin s _ s.last_sent_offset s.max_data_size refl refl w))
        ]

front_timeout-IsWithin :
    (s : Sending) (now : ℕ) (cs : List SendingChunk)
    → IsWithin s
    → IsWithin (front_timeout s now cs).1
unfolding front_timeout
front_timeout-IsWithin s now [] w = w
front_timeout-IsWithin s now (c ∷ cs) w = ground (arith, w)

update-IsWithin : (s : Sending) (now : ℕ) → IsWithin s → IsWithin (update s now).1
unfolding update handle_timeouts
update-IsWithin s now w =
    let kept : IsWithin (front_timeout s now s.chunks).1 =
      front_timeout-IsWithin s now s.chunks w in
    elim (Bool-cases ((front_timeout s now s.chunks).1.max_data_size == 0)) [
      | inl e ↦ rw e kept
      | inr e ↦ rw e (send_data-IsWithin _ now kept)
    ]

step-IsWithin : (s : Sending) (e : Event) → IsWithin s → IsWithin (step s e).0
unfolding step request_repeat_send set_max_data_size
step-IsWithin s (write bytes) w = add-IsWithin s bytes w
step-IsWithin s (on_confirm offset) w = confirmed-IsWithin s offset w
step-IsWithin s (on_request_repeat offset) w = record {
  counted = w.counted;
  room = w.room;
  capacity = w.capacity;
}
step-IsWithin s (write_failed offset) w = report_write_failed-IsWithin s offset w
step-IsWithin s (stop_write a) w = stop_action-IsWithin s a w
step-IsWithin s (set_size size) w = record {
  counted = w.counted;
  room = w.room;
  capacity = w.capacity;
}
step-IsWithin s (tick now) w = update-IsWithin s now w

-- The invariant of the sender's buffer holds through every run.
pub run-IsWithin : (s : Sending) (es : List Event) → IsWithin s → IsWithin (run s es)
unfolding run
run-IsWithin s [] w = w
run-IsWithin s (e ∷ es) w = run-IsWithin (step s e).0 es (step-IsWithin s e w)

create-IsWithin :
    (config : SafeStreamConfig) → config.buffer_capacity < 2 ^ 16 → IsWithin (create config)
unfolding create
create-IsWithin config h = omega arith

-- A sender made from a configuration with a 16-bit capacity counts, after every run of writes,
-- messages, failures, stops and updates, exactly the bytes that it holds, and holds no more than
-- its capacity.
pub run_keeps_capacity :
    (config : SafeStreamConfig) (es : List Event)
    → config.buffer_capacity < 2 ^ 16
    → IsWithin (run (create config) es)
run_keeps_capacity config es h = run-IsWithin (create config) es (create-IsWithin config h)
