-- ===== src/SafeStream/Sending/Serving.antt =====
-- Each call of safe_stream_sending.cpp keeps the sender serving its stream.
use aether_client_cpp_new.Prelude.{
  ℕ, ◌+◌, ◌-◌, ◌≤◌, ◌<◌, ◌≡◌, ap, ◌∙◌, arith, Option, none, some, List, [], ◌∷◌, ◌++◌, All, length,
  take, drop, ltb, ◌==◌, Bool-cases, inl, inr,
}
use mathlib.Core.List.{cons-ne-nil}
use aether_client_cpp_new.Ring.{plus, clockwise, distance}
use aether_client_cpp_new.Ring.Laws.{plus_plain}
use aether_client_cpp_new.SafeStream.Types.{max_index, u16, sub_size, SendingChunk}
use aether_client_cpp_new.SafeStream.Chunks.{register}
use aether_client_cpp_new.SafeStream.Chunks.Indices.{
  IsIndexed, register-Registers, remove_up_to-IsIndexed, clockwise_le,
}
use aether_client_cpp_new.SafeStream.Buffer.{SendDataBuffer, get_slice}
use aether_client_cpp_new.SafeStream.Sending.{
  Sending, Packet, handle_timeouts, front_timeout, send_found, send_slice, send_data, update,
}
use aether_client_cpp_new.SafeStream.Sending.Genuine.{Serves, Carries, reject-Removed}
use aether_client_cpp_new.Prelude.{All-append}
use aether_client_cpp_new.SafeStream.Sending.Slicing.{Sliced, get_slice-Sliced}

abbrev pub CarriesAll : List ℕ → Option Packet → Type 0
CarriesAll written none = Unit
CarriesAll written (some p) = Carries written p

pub record Serving (written : List ℕ) (out : Sending × Option Packet) : Type 0 where
  pub base : ℕ
  pub serves : Serves out.0 base written
  pub packet : CarriesAll written out.1

send_slice-Serving :
    (s : Sending) (now base : ℕ) (written bytes : List ℕ) (b : SendDataBuffer)
    → Serves (record s { buffer = b }) base written
    → base ≤ s.last_sent_offset
    → 0 < length bytes
    → s.last_sent_offset + length bytes ≤ length written
    → bytes ≡ take (length bytes) (drop s.last_sent_offset written)
    → Serving written (send_slice s now bytes b)
unfolding send_slice
send_slice-Serving s now base written bytes b v low full inside same =
    let offset = s.last_sent_offset in
    let end = plus max_index offset (u16 (sub_size (length bytes) 1)) in
    let small : u16 (sub_size (length bytes) 1) ≡ length bytes - 1 = omega (arith, v.top, inside) in
    let last : end ≡ offset + length bytes - 1 =
      ap (plus max_index offset) small
      ∙ (plus_plain max_index offset (length bytes - 1) (omega (arith, v.top, inside, full))
            (omega (arith, v.top, inside))
          ∙ omega (arith, full)) in
    let out = register s.window_size offset end now s.chunks in
    let count = out.1.repeat_count in
    let r =
      register-Registers s.window_size offset end now s.chunks v.sent
        (omega (arith, last, v.top, inside)) v.chunks in
    let moved = clockwise_le offset (u16 (length bytes)) v.sent in
    let kept = All-append IsIndexed out.0 (out.1 ∷ []) r.others (r.chunk, tt) in
    let counted =
      All-append IsIndexed out.0 (record out.1 { repeat_count = u16 (count + 1) } ∷ []) r.others
        (record { begins = r.chunk.begins; ends = r.chunk.ends }, tt) in
    let gone =
      reject-Removed b base written out.1.end_offset v.holds v.half
        (omega (arith, v.room, v.capacity)) v.top
        (record {
          low = omega (arith, r.reaches, last, low, full);
          high = omega (arith, r.reaches, last, inside, full);
        }) in
    let stays : Serves
        (record s {
          buffer = b;
          last_sent_offset = clockwise max_index offset (u16 (length bytes));
          chunks = out.0 ++ (record out.1 { repeat_count = u16 (count + 1) } ∷ []);
        })
        base written =
      record {
        holds = v.holds;
        half = v.half;
        room = v.room;
        capacity = v.capacity;
        next = v.next;
        top = v.top;
        sent = moved;
        chunks = counted;
      } in
    elim (Bool-cases (count == 0)) [
      | inl e ↦ rw e (record {
        base = base;
        serves = stays;
        packet = record { inside = inside; bytes = same };
      })
      | inr e ↦ elim (Bool-cases (ltb s.max_repeat_count count)) [
        | inl f ↦
            rw (e, f)
              (record {
                base = gone.from;
                serves = record {
                  holds = gone.holds;
                  half = rw gone.window v.half;
                  room = omega (arith, gone.less, v.room);
                  capacity = rw gone.window v.capacity;
                  next = v.next;
                  top = v.top;
                  sent = moved;
                  chunks =
                      remove_up_to-IsIndexed s.window_size out.1.end_offset (out.0 ++ (out.1 ∷ []))
                        r.chunk.ends kept;
                };
                packet = tt;
              })
        | inr f ↦
            rw (e, f)
              (record {
                base = base;
                serves = stays;
                packet = record { inside = inside; bytes = same };
              })
      ]
    ]

send_found-Serving :
    (s : Sending) (now base : ℕ) (written bytes : List ℕ) (b : SendDataBuffer)
    → Serves s base written
    → Sliced base written s.last_sent_offset s.buffer (bytes, b)
    → Serving written (send_found s now bytes b)
unfolding send_found
send_found-Serving s now base written [] b v k = record {
  base = base;
  serves = record {
    holds = k.holds;
    half = rw k.window v.half;
    room = rw k.size v.room;
    capacity = rw k.window v.capacity;
    next = v.next;
    top = v.top;
    sent = v.sent;
    chunks = v.chunks;
  };
  packet = tt;
}
send_found-Serving s now base written (x ∷ xs) b v k =
    let held : Serves (record s { buffer = b }) base written = record {
      holds = k.holds;
      half = rw k.window v.half;
      room = rw k.size v.room;
      capacity = rw k.window v.capacity;
      next = v.next;
      top = v.top;
      sent = v.sent;
      chunks = v.chunks;
    } in
    let low : base ≤ s.last_sent_offset = elim k.found [
      | inl e ↦ absurd (cons-ne-nil x xs e)
      | inr h ↦ h
    ] in
    let same : x ∷ xs ≡ take (length (x ∷ xs)) (drop s.last_sent_offset written) = elim k.bytes [
      | inl e ↦ absurd (cons-ne-nil x xs e)
      | inr h ↦ h
    ] in
    send_slice-Serving s now base written (x ∷ xs) b held low (omega arith)
      (omega (arith, k.inside)) same

send_data-Serving :
    (s : Sending) (now base : ℕ) (written : List ℕ)
    → Serves s base written
    → Serving written (send_data s now)
unfolding send_data
send_data-Serving s now base written v =
    let out = get_slice s.buffer s.last_sent_offset s.max_data_size in
    let k =
      get_slice-Sliced s.buffer base written s.last_sent_offset s.max_data_size v.holds v.half
        v.sent in
    elim (Bool-cases (
      ltb s.window_size (
        distance max_index s.last_confirmed (plus max_index s.last_sent_offset s.max_data_size)))) [
          | inl e ↦ rw e (record { base = base; serves = v; packet = tt })
          | inr e ↦ rw e (send_found-Serving s now base written out.0 out.1 v k)
        ]

front_timeout-Serves :
    (s : Sending) (now base : ℕ) (written : List ℕ) (cs : List SendingChunk)
    → Serves s base written
    → All IsIndexed cs
    → Serves (front_timeout s now cs).1 base written
unfolding front_timeout
front_timeout-Serves s now base written [] v i = v
front_timeout-Serves s now base written (c ∷ cs) v (i, is) =
    elim (Bool-cases (ltb (c.send_time + s.wait_confirm_timeout) now)) [
      | inl e ↦ rw e (record {
        holds = v.holds;
        half = v.half;
        room = v.room;
        capacity = v.capacity;
        next = v.next;
        top = v.top;
        sent = i.begins;
        chunks = v.chunks;
      })
      | inr e ↦ rw e v
    ]

pub update-Serving :
    (s : Sending) (now base : ℕ) (written : List ℕ)
    → Serves s base written
    → Serving written ((update s now).1, (update s now).2)
unfolding update handle_timeouts
update-Serving s now base written v =
    let kept = front_timeout-Serves s now base written s.chunks v v.chunks in
    elim (Bool-cases ((front_timeout s now s.chunks).1.max_data_size == 0)) [
      | inl e ↦ rw e (record { base = base; serves = kept; packet = tt })
      | inr e ↦ rw e (send_data-Serving (front_timeout s now s.chunks).1 now base written kept)
    ]
