-- ===== src/SafeStream/Sending/Packets.antt =====
-- The packets that a run of the sender of safe_stream_sending.cpp writes.
use aether_client_cpp_new.Prelude.{
  ℕ, ◌+◌, ◌*◌, ◌≤◌, ◌<◌, ◌≡◌, refl, sym, ap, ◌∙◌, subst, arith, true, Option, none, some, List, [],
  ◌∷◌, ◌++◌, append_assoc, append-nil, All, length, length-append, ltb, Bool-cases, inl, inr,
}
use aether_client_cpp_new.SafeStream.Types.{max_index}
use aether_client_cpp_new.SafeStream.Buffer.Contiguous.{cut_inside}
use aether_client_cpp_new.SafeStream.Sending.{
  Sending, Packet, create, add, request_repeat_send, set_max_data_size,
}
use aether_client_cpp_new.SafeStream.Sending.Window.{offset_of, bytes_of}
use aether_client_cpp_new.SafeStream.Sending.Genuine.{Serves, Carries}
use aether_client_cpp_new.Prelude.{All-append}
use aether_client_cpp_new.SafeStream.Types.{SafeStreamConfig}
use aether_client_cpp_new.SafeStream.Sending.Adding.{add-Serves}
use aether_client_cpp_new.SafeStream.Sending.Serving.{CarriesAll, Serving, update-Serving}
use aether_client_cpp_new.SafeStream.Sending.Run.{
  Event, write, on_confirm, on_request_repeat, write_failed, stop_write, set_size, tick, step,
}
use aether_client_cpp_new.SafeStream.Sending.Stream.{
  AllProper, Proper, added, stream, packets_of, packets, confirmed-Serving, failed-Serving,
  stopped-Serving,
}

Serving-nil :
    (written : List ℕ) (out : Sending × Option Packet)
    → Serving written out
    → Serving (written ++ []) out
Serving-nil written out v = subst (λ w. Serving w out) (sym (append-nil written)) v

add_refused :
    (s : Sending) (bytes : List ℕ)
    → ltb s.buffer_capacity (s.buffer.buffer_size + length bytes) ≡ true
    → (add s bytes).0 ≡ s
unfolding add
add_refused s bytes e = rw e refl

write-Serving :
    (s : Sending) (base : ℕ) (written bytes : List ℕ)
    → Serves s base written
    → 0 < length bytes
    → length (written ++ added s (write bytes)) ≤ max_index
    → Serving (written ++ added s (write bytes)) ((add s bytes).0, none)
write-Serving s base written bytes v full top =
    elim (Bool-cases (ltb s.buffer_capacity (s.buffer.buffer_size + length bytes))) [
      | inl e ↦
          rw (e, add_refused s bytes e)
            (Serving-nil written _ (record { base = base; serves = v; packet = tt }))
      | inr e ↦
          let fits : length (written ++ bytes) ≤ max_index = rw e at top in
          rw e (record {
            base = base;
            serves =
                add-Serves s base written bytes v full
                  (omega (arith, fits, length-append written bytes)) e;
            packet = tt;
          })
    ]

step-Serving :
    (s : Sending) (e : Event) (base : ℕ) (written : List ℕ)
    → Serves s base written
    → Proper s e
    → length (written ++ added s e) ≤ max_index
    → Serving (written ++ added s e) (step s e)
unfolding step request_repeat_send set_max_data_size
step-Serving s (write bytes) base written v full top = write-Serving s base written bytes v full top
step-Serving s (on_confirm offset) base written v i top =
    Serving-nil written _ (confirmed-Serving s base written v offset i)
step-Serving s (on_request_repeat offset) base written v i top = Serving-nil written _ (record {
  base = base;
  serves = record {
    holds = v.holds;
    half = v.half;
    room = v.room;
    capacity = v.capacity;
    next = v.next;
    top = v.top;
    sent = i;
    chunks = v.chunks;
  };
  packet = tt;
})
step-Serving s (write_failed offset) base written v i top =
    Serving-nil written _ (failed-Serving s base written v offset i)
step-Serving s (stop_write a) base written v i top =
    Serving-nil written _ (stopped-Serving s base written v a i)
step-Serving s (set_size size) base written v i top = Serving-nil written _ (record {
  base = base;
  serves = record {
    holds = v.holds;
    half = v.half;
    room = v.room;
    capacity = v.capacity;
    next = v.next;
    top = v.top;
    sent = v.sent;
    chunks = v.chunks;
  };
  packet = tt;
})
step-Serving s (tick now) base written v i top =
    Serving-nil written _ (update-Serving s now base written v)

Carries-append :
    (written more : List ℕ) (p : Packet) → Carries written p → Carries (written ++ more) p
Carries-append written more p c = record {
  inside = omega (arith, c.inside, length-append written more);
  bytes =
      c.bytes
      ∙ sym (
          cut_inside (length (bytes_of p)) (offset_of p) written more (omega (arith, c.inside))
            (omega (arith, c.inside)));
}

All-packets_of :
    (written more : List ℕ) (o : Option Packet)
    → CarriesAll written o
    → All (Carries (written ++ more)) (packets_of o)
All-packets_of written more none c = tt
All-packets_of written more (some p) c = (Carries-append written more p c, tt)

packets-Carries :
    (s : Sending) (es : List Event) (base : ℕ) (written : List ℕ)
    → Serves s base written
    → AllProper s es
    → length (written ++ stream s es) ≤ max_index
    → All (Carries (written ++ stream s es)) (packets s es)
packets-Carries s [] base written v proper top = tt
packets-Carries s (e ∷ es) base written v (proper, rest) top =
    let later = stream (step s e).0 es in
    let assoc = append_assoc written (added s e) later in
    let same = ap length assoc in
    let total = length-append (written ++ added s e) later in
    let out = step-Serving s e base written v proper (omega (arith, same, total, top)) in
    let here = All-packets_of (written ++ added s e) later (step s e).1 out.packet in
    let there =
      packets-Carries (step s e).0 es out.base (written ++ added s e) out.serves rest
        (omega (arith, same, top)) in
    rw (← assoc) (
      All-append (Carries ((written ++ added s e) ++ later)) (packets_of (step s e).1)
        (packets (step s e).0 es) here there)

create-Serves :
    (config : SafeStreamConfig)
    → config.buffer_capacity ≤ config.window_size
    → 2 * config.window_size < max_index
    → Serves (create config) 0 []
unfolding create
create-Serves config capacity half = record {
  holds = record { contiguous = tt; ends = refl; bytes = refl; counted = refl };
  half = half;
  room = omega arith;
  capacity = capacity;
  next = refl;
  top = omega arith;
  sent = omega arith;
  chunks = tt;
}

-- A sender whose buffer's capacity is within its window, and the window below half the indices, takes
-- writes with data, confirmations, failures and stops that are about the data in its buffer, requests
-- for any index, sizes and updates, and what it took stays below the wrap. Then every packet that it
-- writes has the bytes of the stream of its accepted writes, at the packet's offset.
pub packets_of_stream :
    (config : SafeStreamConfig) (es : List Event)
    → config.buffer_capacity ≤ config.window_size
    → 2 * config.window_size < max_index
    → AllProper (create config) es
    → length (stream (create config) es) ≤ max_index
    → All (Carries (stream (create config) es)) (packets (create config) es)
packets_of_stream config es capacity half proper top =
    packets-Carries (create config) es 0 [] (create-Serves config capacity half) proper top
