-- ===== src/SafeStream/EndToEnd.antt =====
-- Sender and receiver of aether/stream_api/safe_stream together, with any network between them.
use aether_client_cpp_new.Prelude.{
  ℕ, zero, suc, ◌+◌, ◌*◌, ◌≤◌, ◌<◌, ◌≡◌, refl, sym, ap, ◌∙◌, subst, inl, inr, arith, List, [], ◌∷◌,
  All, length, take, drop,
}
use mathlib.Core.List.Memᴰ
use mathlib.Core.List.{Memᴰ, head-eq_of_cons-eq, tail-eq_of_cons-eq}
use aether_client_cpp_new.SafeStream.Types.{max_index, SafeStreamConfig}
use aether_client_cpp_new.SafeStream.Receiving.{ReceivingChunk}
use aether_client_cpp_new.SafeStream.Receiving as Receiving
use aether_client_cpp_new.SafeStream.Receiving.Order.{slice, Agrees}
use aether_client_cpp_new.SafeStream.Receiving.Run as ReceivingRun
use aether_client_cpp_new.SafeStream.Receiving.Run.{on_send, on_repeat, tick, Genuine, run_in_order}
use aether_client_cpp_new.SafeStream.Sending.{Packet, send, repeat, create}
use aether_client_cpp_new.SafeStream.Sending.Run as SendingRun
use aether_client_cpp_new.SafeStream.Sending.Genuine.{Carries}
use aether_client_cpp_new.SafeStream.Sending.Stream.{AllProper, stream, packets}
use aether_client_cpp_new.SafeStream.Sending.Packets.{packets_of_stream}

-- the byte at a position, and `d` behind the end
nth : ℕ → List ℕ → ℕ → ℕ
nth d [] i = d
nth d (x ∷ xs) zero = x
nth d (x ∷ xs) (suc i) = nth d xs i

slice-nth-suc :
    (d x : ℕ) (xs : List ℕ) (pos n : ℕ)
    → slice (nth d (x ∷ xs)) (suc pos) n ≡ slice (nth d xs) pos n
unfolding nth
slice-nth-suc d x xs pos zero = refl
slice-nth-suc d x xs pos (suc n) = ap (λ l. nth d xs pos ∷ l) (slice-nth-suc d x xs (suc pos) n)

slice-nth :
    (d : ℕ) (xs : List ℕ) (pos n : ℕ)
    → pos + n ≤ length xs
    → slice (nth d xs) pos n ≡ take n (drop pos xs)
unfolding nth
slice-nth d xs zero zero h = refl
slice-nth d xs (suc pos) zero h = refl
slice-nth d [] zero (suc n) h = absurd (omega arith)
slice-nth d [] (suc pos) (suc n) h = absurd (omega arith)
slice-nth d (x ∷ xs) zero (suc n) h =
    ap (λ l. x ∷ l) (slice-nth-suc d x xs 0 n ∙ slice-nth d xs 0 n (omega arith))
slice-nth d (x ∷ xs) (suc pos) (suc n) h =
    slice-nth-suc d x xs pos (suc n) ∙ slice-nth d xs pos (suc n) (omega arith)

-- What holds for any continuation of the bytes does not go beyond them.
slice-nth_inside :
    (xs : List ℕ) (n : ℕ) → slice (nth 0 xs) 0 n ≡ slice (nth 1 xs) 0 n → n ≤ length xs
unfolding nth
slice-nth_inside xs zero e = omega arith
slice-nth_inside [] (suc n) e = absurd (omega (arith, head-eq_of_cons-eq e))
slice-nth_inside (x ∷ xs) (suc n) e =
    let later =
      sym (slice-nth-suc 0 x xs 0 n) ∙ (tail-eq_of_cons-eq e ∙ slice-nth-suc 1 x xs 0 n) in
    omega (arith, slice-nth_inside xs n later)

-- A message that reaches the receiver was written by the sender at some time; an update may come at
-- any time.
abbrev pub Arrives : List Packet → ReceivingRun.Event → Type 0
Arrives ps (on_send offset bytes) = Memᴰ (send offset bytes) ps
Arrives ps (on_repeat count offset bytes) = Memᴰ (repeat count offset bytes) ps
Arrives ps (tick now) = Unit

-- What holds of all packets holds of one of them.
All-Memᴰ :
    (written : List ℕ) (p : Packet) (ps : List Packet)
    → All (Carries written) ps
    → Memᴰ p ps
    → Carries written p
All-Memᴰ written p [] v m = absurd (Memᴰ.not-nil m)
All-Memᴰ written p (q ∷ ps) (v, vs) m = elim (Memᴰ.cases_cons m) [
  | inl e ↦ subst (Carries written) (sym e) v
  | inr m' ↦ All-Memᴰ written p ps vs m'
]

module _ (d : ℕ) (written : List ℕ) (top : length written < max_index) where
  Carries-Agrees :
      (offset : ℕ) (bytes : List ℕ)
      → offset + length bytes ≤ length written
      → bytes ≡ take (length bytes) (drop offset written)
      → Agrees (nth d written) (record { offset = offset; bytes = bytes })
  Carries-Agrees offset bytes inside same = record {
    carries = same ∙ sym (slice-nth d written offset (length bytes) inside);
    fits = omega arith;
  }

  Arrives-Genuine :
      (ps : List Packet) (e : ReceivingRun.Event)
      → All (Carries written) ps
      → Arrives ps e
      → Genuine (nth d written) e
  Arrives-Genuine ps (on_send offset bytes) v m =
      let c = All-Memᴰ written (send offset bytes) ps v m in
      Carries-Agrees offset bytes c.inside c.bytes
  Arrives-Genuine ps (on_repeat count offset bytes) v m =
      let c = All-Memᴰ written (repeat count offset bytes) ps v m in
      Carries-Agrees offset bytes c.inside c.bytes
  Arrives-Genuine ps (tick now) v m = tt

  All-Genuine :
      (ps : List Packet) (es : List ReceivingRun.Event)
      → All (Carries written) ps
      → All (Arrives ps) es
      → All (Genuine (nth d written)) es
  All-Genuine ps [] v m = tt
  All-Genuine ps (e ∷ es) v (m, ms) = (Arrives-Genuine ps e v m, All-Genuine ps es v ms)

-- A sender whose buffer's capacity is within its window, and the window below half the indices, takes
-- writes with data, confirmations, failures and stops that are about the data in its buffer, requests
-- for any index, sizes and updates, and what it took stays below the wrap. A fresh receiver gets the
-- packets that the sender writes, each any number of times or never, in any order, with updates
-- between them. What it hands on is a beginning of the stream of the accepted writes, and its
-- confirmed offset is the length of that beginning.
pub stream_delivered :
    (config config' : SafeStreamConfig) (es : List SendingRun.Event)
    (arrived : List ReceivingRun.Event)
    → config.buffer_capacity ≤ config.window_size
    → 2 * config.window_size < max_index
    → AllProper (create config) es
    → length (stream (create config) es) < max_index
    → All (Arrives (packets (create config) es)) arrived
    → let out = ReceivingRun.run (Receiving.create config') arrived in
      (out.1 ≡ take (length out.1) (stream (create config) es))
      × (out.0.last_confirmed_offset ≡ length out.1)
stream_delivered config config' es arrived capacity half proper top arrives =
    let written = stream (create config) es in
    let carry = packets_of_stream config es capacity half proper (omega arith) in
    let zeros =
      run_in_order (nth 0 written) config' arrived
        (All-Genuine 0 written top (packets (create config) es) arrived carry arrives) in
    let ones =
      run_in_order (nth 1 written) config' arrived
        (All-Genuine 1 written top (packets (create config) es) arrived carry arrives) in
    let n = length (ReceivingRun.run (Receiving.create config') arrived).1 in
    let inside = slice-nth_inside written n (sym zeros.0 ∙ ones.0) in
    (zeros.0 ∙ slice-nth 0 written 0 n (omega arith), zeros.1)
