-- ===== src/SafeStream/Sending/Genuine.antt =====
-- The sender of safe_stream_sending.cpp writes the bytes of its stream, each at its offset.
use aether_client_cpp_new.Prelude.{
  ℕ, ◌+◌, ◌-◌, ◌*◌, ◌≤◌, ◌<◌, ◌≡◌, refl, sym, ap, ◌∙◌, arith, List, All, length, take, drop,
  drop-add,
}
use aether_client_cpp_new.SafeStream.Types.{max_index}
use aether_client_cpp_new.SafeStream.Chunks.Indices.{IsIndexed}
use aether_client_cpp_new.SafeStream.Action.{SendingDataAction}
use aether_client_cpp_new.SafeStream.Buffer.{SendDataBuffer, remove_actions, confirm, reject, stop}
use aether_client_cpp_new.SafeStream.Buffer.Contiguous.{joined, Contiguous}
use aether_client_cpp_new.SafeStream.Buffer.Release.{
  IsNear, IsCounted, others, ends_before, starts_by, confirm_lem, reject_lem, stop_lem,
}
use aether_client_cpp_new.SafeStream.Buffer.Prefix.{
  Rest, others-ends_before, others-starts_by, All-IsNear,
}
use aether_client_cpp_new.SafeStream.Sending.{Sending, Packet}
use aether_client_cpp_new.SafeStream.Sending.Window.{offset_of, bytes_of}

-- The buffer holds the end of what was written, from `base` on.
pub record Holds (b : SendDataBuffer) (base : ℕ) (written : List ℕ) : Type 0 where
  pub contiguous : Contiguous b.window_size base b.views
  pub ends : base + length (joined b.views) ≡ length written
  pub bytes : joined b.views ≡ drop base written
  pub counted : b.buffer_size ≡ length (joined b.views)

-- The sender has not reached the wrap, and its buffer fits the window.
pub record Serves (s : Sending) (base : ℕ) (written : List ℕ) : Type 0 where
  pub holds : Holds s.buffer base written
  pub half : 2 * s.buffer.window_size < max_index
  pub room : s.buffer.buffer_size ≤ s.buffer_capacity
  pub capacity : s.buffer_capacity ≤ s.buffer.window_size
  pub next : s.next_to_add ≡ length written
  pub top : length written ≤ max_index
  pub sent : s.last_sent_offset ≤ max_index
  pub chunks : All IsIndexed s.chunks

-- a packet with bytes of what was written, at their offset
pub record Carries (written : List ℕ) (p : Packet) : Type 0 where
  pub inside : offset_of p + length (bytes_of p) ≤ length written
  pub bytes : bytes_of p ≡ take (length (bytes_of p)) (drop (offset_of p) written)

-- an offset of the buffer, or next to its first one
pub record Names (base : ℕ) (written : List ℕ) (offset : ℕ) : Type 0 where
  pub low : base ≤ offset + 1
  pub high : offset ≤ length written

-- a buffer after a removal: the end of the range stays
pub record Removed (b b' : SendDataBuffer) (base : ℕ) (written : List ℕ) : Type 0 where
  pub from : ℕ
  pub later : base ≤ from
  pub holds : Holds b' from written
  pub window : b'.window_size ≡ b.window_size
  pub less : b'.buffer_size ≤ b.buffer_size

Holds-Removed :
    (b b' : SendDataBuffer) (base : ℕ) (written : List ℕ) (kept : List SendingDataAction)
    → Holds b base written
    → Rest b.window_size base b.views kept
    → b'.views ≡ kept
    → b'.buffer_size ≡ length (joined kept)
    → b'.window_size ≡ b.window_size
    → Removed b b' base written
Holds-Removed b b' base written kept h r views size window = record {
  from = r.from;
  later = r.later;
  holds = record {
    contiguous = rw (window, views) r.contiguous;
    ends = rw views (omega (arith, r.size, h.ends));
    bytes = rw views (r.bytes ∙ (ap (drop (r.from - base)) h.bytes ∙ fold));
    counted = rw views size;
  };
  window = window;
  less = omega (arith, size, h.counted, r.size, r.later);
}
  where
    fold : drop (r.from - base) (drop base written) ≡ drop r.from written
    fold =
        sym (drop-add base (r.from - base) written)
        ∙ ap (λ n. drop n written) {x = base + (r.from - base)} {y = r.from}
            (omega (arith, r.later))

module _ (b : SendDataBuffer) (base : ℕ) (written : List ℕ) (offset : ℕ) (h : Holds b base written)
    (half : 2 * b.window_size < max_index) (room : b.buffer_size ≤ b.window_size)
    (top : length written ≤ max_index) (named : Names base written offset) where
  near : All (IsNear b.window_size offset) b.views
  near =
      All-IsNear b.window_size offset base b.views h.contiguous
        (omega (arith, h.counted, h.ends, room, named.low))
        (omega (arith, h.counted, h.ends, room, named.high))

  counted : IsCounted b
  counted = (h.counted, omega (arith, room, half))

  index : offset ≤ max_index
  index = omega (arith, named.high, top)

  pub confirm-Removed : Removed b (confirm b offset) base written
  unfolding confirm remove_actions
  confirm-Removed =
      let r = confirm_lem b offset half index near counted in
      Holds-Removed b (confirm b offset) base written (others (ends_before offset) b.views) h
        (others-ends_before b.window_size offset base b.views h.contiguous) r.views r.counted refl

  pub reject-Removed : Removed b (reject b offset) base written
  unfolding reject remove_actions
  reject-Removed =
      let r = reject_lem b offset half index near counted in
      Holds-Removed b (reject b offset) base written (others (starts_by offset) b.views) h
        (others-starts_by b.window_size offset base b.views h.contiguous) r.views r.counted refl

  pub stop-Removed : Removed b (stop b offset) base written
  unfolding stop remove_actions
  stop-Removed =
      let r = stop_lem b offset half index near counted in
      Holds-Removed b (stop b offset) base written (others (starts_by offset) b.views) h
        (others-starts_by b.window_size offset base b.views h.contiguous) r.views r.counted refl
