-- ===== src/SafeStream/Sending/Adding.antt =====
-- What the user writes is added to the stream of safe_stream_sending.cpp.
use aether_client_cpp_new.Prelude.{
  ℕ, ◌+◌, ◌-◌, ◌≤◌, ◌<◌, ◌≡◌, sym, ap, ap₂, ◌∙◌, arith, false, List, [], ◌∷◌, ◌++◌, append-nil,
  length, length-append, drop_append_le, ltb,
}
use aether_client_cpp_new.Ring.{plus}
use aether_client_cpp_new.Ring.Laws.{plus_plain}
use aether_client_cpp_new.SafeStream.Types.{max_index}
use aether_client_cpp_new.SafeStream.Action.{SendingDataAction, new_action, get_offset_range}
use aether_client_cpp_new.SafeStream.Buffer.{add_data}
use aether_client_cpp_new.SafeStream.Buffer.Contiguous.{joined, Contiguous, get_offset_range_end}
use aether_client_cpp_new.SafeStream.Sending.{Sending, add}
use aether_client_cpp_new.SafeStream.Sending.Genuine.{Serves}
use aether_client_cpp_new.SafeStream.Sending.Capacity.{joined-append}

Contiguous-append :
    (window base : ℕ) (views : List SendingDataAction) (a : SendingDataAction)
    → Contiguous window base views
    → a.offset ≡ base + length (joined views)
    → 0 < length a.bytes
    → length a.bytes ≤ window
    → base + length (joined views) + length a.bytes ≤ max_index
    → Contiguous window base (views ++ (a ∷ []))
Contiguous-append window base [] a v at full fits top =
    (omega (arith, at), full, fits, omega (arith, top), tt)
Contiguous-append window base (x ∷ views) a (xat, xfull, xfits, xtop, vs) at full fits top =
    let total = length-append x.bytes (joined views) in
    (
      xat,
      xfull,
      xfits,
      xtop,
      Contiguous-append window (base + length x.bytes) views a vs (omega (arith, at, total)) full
          fits (omega (arith, top, total)),
    )

pub add-Serves :
    (s : Sending) (base : ℕ) (written bytes : List ℕ)
    → Serves s base written
    → 0 < length bytes
    → length written + length bytes ≤ max_index
    → ltb s.buffer_capacity (s.buffer.buffer_size + length bytes) ≡ false
    → Serves (add s bytes).0 base (written ++ bytes)
unfolding add add_data new_action
add-Serves s base written bytes v full top roomy =
    let a = new_action s.next_to_add bytes in
    let h = v.holds in
    let total = length-append written bytes in
    let fits : s.buffer.buffer_size + length bytes ≤ s.buffer_capacity = ground (arith, roomy) in
    let all = joined-append s.buffer.views (a ∷ []) in
    let size = length-append (joined s.buffer.views) (bytes ++ []) in
    let same = append-nil bytes in
    let last : (get_offset_range a s.window_size).end ≡ s.next_to_add + length bytes - 1 =
      get_offset_range_end a s.window_size full (omega (arith, v.next, top)) in
    let next : plus max_index (s.next_to_add + length bytes - 1) 1
        ≡ s.next_to_add + length bytes - 1 + 1 =
      plus_plain max_index (s.next_to_add + length bytes - 1) 1 (omega arith)
        (omega (arith, v.next, top, full)) in
    rw roomy (record {
      holds = record {
        contiguous =
            Contiguous-append s.buffer.window_size base s.buffer.views a h.contiguous
              (omega (arith, v.next, h.ends)) full (omega (arith, fits, v.capacity))
              (omega (arith, h.ends, top));
        ends = omega (arith, ap length all, size, ap length same, total, h.ends);
        bytes =
            all
            ∙ (ap₂ ◌++◌ h.bytes same
                ∙ sym (drop_append_le base written bytes (omega (arith, h.ends))));
        counted = omega (arith, ap length all, size, ap length same, h.counted);
      };
      half = v.half;
      room = fits;
      capacity = v.capacity;
      next = ap (λ n. plus max_index n 1) last ∙ (next ∙ omega (arith, total, v.next, full));
      top = omega (arith, total, top);
      sent = v.sent;
      chunks = v.chunks;
    })
