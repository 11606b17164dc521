-- ===== src/SafeStream/Sending/Stream.antt =====
-- Runs of the sender of safe_stream_sending.cpp, and the packets that they write.
use aether_client_cpp_new.Prelude.{
  ℕ, ◌+◌, ◌≤◌, ◌<◌, ◌≡◌, refl, ◌∙◌, arith, Option, none, some, List, [], ◌∷◌, ◌++◌, All, length,
  ltb, leb, if◌then◌else◌, Bool-cases, inl, inr,
}
use aether_client_cpp_new.Ring.{distance}
use aether_client_cpp_new.SafeStream.Types.{max_index}
use aether_client_cpp_new.SafeStream.Chunks.Indices.{IsIndexed, remove_up_to-IsIndexed}
use aether_client_cpp_new.SafeStream.Action.{SendingDataAction, stop_requested}
use aether_client_cpp_new.SafeStream.Buffer.Contiguous.{joined, Contiguous}
use aether_client_cpp_new.SafeStream.Sending.{
  Sending, Packet, confirmed, report_write_failed, stop_action, stop_sending,
}
use aether_client_cpp_new.SafeStream.Sending.Genuine.{
  Serves, Names, Removed, confirm-Removed, reject-Removed, stop-Removed,
}
use aether_client_cpp_new.SafeStream.Sending.Serving.{Serving}
use aether_client_cpp_new.SafeStream.Sending.Run.{
  Event, write, on_confirm, on_request_repeat, write_failed, stop_write, set_size, tick, step,
}

-- the offset of the first byte in the buffer
abbrev pub front : Sending → ℕ
front s = elim s.buffer.views as (λ x. ℕ) [ [] ↦ s.next_to_add | a ∷ more ↦ a.offset ]

-- An offset of a byte in the buffer, or next to it.
abbrev pub InBuffer : Sending → ℕ → Type 0
InBuffer s offset = (front s ≤ offset + 1) × (offset ≤ s.next_to_add)

-- A write has data; a confirmation, a failure and a stop are about the
-- data in the buffer; a request is for an index.
abbrev pub Proper : Sending → Event → Type 0
Proper s (write bytes) = 0 < length bytes
Proper s (on_confirm offset) = InBuffer s offset
Proper s (on_request_repeat offset) = offset ≤ max_index
Proper s (write_failed offset) = InBuffer s offset
Proper s (stop_write a) = InBuffer s a.offset
Proper s (set_size size) = Unit
Proper s (tick now) = Unit

abbrev pub AllProper : Sending → List Event → Type 0
AllProper s [] = Unit
AllProper s (e ∷ es) = Proper s e × AllProper (step s e).0 es

-- what an event adds to the stream: the data of a write that is not refused
abbrev pub added : Sending → Event → List ℕ
added s (write bytes) =
    if ltb s.buffer_capacity (s.buffer.buffer_size + length bytes) then [] else bytes
added s e = []

-- the stream that a run makes, and the packets that it writes
abbrev pub stream : Sending → List Event → List ℕ
stream s [] = []
stream s (e ∷ es) = added s e ++ stream (step s e).0 es

abbrev pub packets_of : Option Packet → List Packet
packets_of none = []
packets_of (some p) = p ∷ []

abbrev pub packets : Sending → List Event → List Packet
packets s [] = []
packets s (e ∷ es) = packets_of (step s e).1 ++ packets (step s e).0 es

front-base : (s : Sending) (base : ℕ) (written : List ℕ) → Serves s base written → front s ≡ base
front-base s base written v = by_views s.buffer.views v.holds.contiguous v.holds.ends
  where
    by_views :
        (views : List SendingDataAction)
        → Contiguous s.buffer.window_size base views
        → base + length (joined views) ≡ length written
        → elim views as (λ x. ℕ) [ [] ↦ s.next_to_add | a ∷ more ↦ a.offset ] ≡ base
    by_views [] c e = omega (arith, e, v.next)
    by_views (a ∷ more) (at, full, fits, top, vs) e = at

Removed-Serves :
    (s s' : Sending) (base : ℕ) (written : List ℕ)
    → Serves s base written
    → (r : Removed s.buffer s'.buffer base written) → s'.buffer_capacity ≡ s.buffer_capacity
    → s'.next_to_add ≡ s.next_to_add
    → s'.last_sent_offset ≡ s.last_sent_offset
    → All IsIndexed s'.chunks
    → Serves s' r.from written
Removed-Serves s s' base written v r capacity next sent chunks = record {
  holds = r.holds;
  half = rw r.window v.half;
  room = omega (arith, r.less, v.room, capacity);
  capacity = omega (arith, r.window, v.capacity, capacity);
  next = next ∙ v.next;
  top = v.top;
  sent = omega (arith, sent, v.sent);
  chunks = chunks;
}

module _ (s : Sending) (base : ℕ) (written : List ℕ) (v : Serves s base written) where
  named : (offset : ℕ) → InBuffer s offset → Names base written offset
  named offset (low, high) = record {
    low = omega (arith, low, front-base s base written v);
    high = omega (arith, high, v.next);
  }

  room_in_window : s.buffer.buffer_size ≤ s.buffer.window_size
  room_in_window = omega (arith, v.room, v.capacity)

  pub confirmed-Serving :
      (offset : ℕ) → InBuffer s offset → Serving written (confirmed s offset, none)
  unfolding confirmed
  confirmed-Serving offset i =
      let n = named offset i in
      let r = confirm-Removed s.buffer base written offset v.holds v.half room_in_window v.top n in
      elim (Bool-cases (leb (distance max_index s.last_confirmed offset) s.window_size)) [
        | inl e ↦ rw e (record {
          base = r.from;
          serves = Removed-Serves s _ base written v r refl refl refl (
              remove_up_to-IsIndexed s.window_size offset s.chunks (omega (arith, n.high, v.top))
                v.chunks);
          packet = tt;
        })
        | inr e ↦ rw e (record { base = base; serves = v; packet = tt })
      ]

  pub failed-Serving :
      (offset : ℕ) → InBuffer s offset → Serving written (report_write_failed s offset, none)
  unfolding report_write_failed
  failed-Serving offset i =
      let n = named offset i in
      let r = reject-Removed s.buffer base written offset v.holds v.half room_in_window v.top n in
      record {
        base = r.from;
        serves = Removed-Serves s _ base written v r refl refl refl (
            remove_up_to-IsIndexed s.window_size offset s.chunks (omega (arith, n.high, v.top))
              v.chunks);
        packet = tt;
      }

  pub stopped-Serving :
      (a : SendingDataAction) → InBuffer s a.offset → Serving written (stop_action s a, none)
  unfolding stop_action stop_sending
  stopped-Serving a i =
      let n = named a.offset i in
      let r = stop-Removed s.buffer base written a.offset v.holds v.half room_in_window v.top n in
      elim (Bool-cases (stop_requested a)) [
        | inl e ↦ rw e (record {
          base = r.from;
          serves = Removed-Serves s _ base written v r refl refl refl (
              remove_up_to-IsIndexed s.window_size a.offset s.chunks (omega (arith, n.high, v.top))
                v.chunks);
          packet = tt;
        })
        | inr e ↦ rw e (record { base = base; serves = v; packet = tt })
      ]
