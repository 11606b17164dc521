-- ===== src/SafeStream/Sending/Slicing.antt =====
-- What `GetSlice` of send_data_buffer.cpp finds for the sender of a stream.
use aether_client_cpp_new.Prelude.{
  ℕ, ◌+◌, ◌-◌, ◌*◌, ◌≤◌, ◌<◌, ◌≡◌, refl, sym, ap, ◌∙◌, arith, List, [], ◌∷◌, length, take, drop,
  length-take, length-drop, drop-add, inl, inr, ◌⊎◌, zero, suc,
}
use native.Mathlib.Decide.{dec_lt}
use aether_client_cpp_new.SafeStream.Types.{max_index}
use aether_client_cpp_new.SafeStream.Buffer.{SendDataBuffer, slice_from, get_slice}
use aether_client_cpp_new.SafeStream.Buffer.Contiguous.{slice_from-Contiguous, get_slice_lem}
use aether_client_cpp_new.SafeStream.Buffer.Prefix.{slice_from_early}
use aether_client_cpp_new.SafeStream.Sending.Genuine.{Holds}

take-length-take : (n : ℕ) (xs : List ℕ) → take n xs ≡ take (length (take n xs)) xs
take-length-take zero xs = refl
take-length-take (suc n) [] = refl
take-length-take (suc n) (x ∷ xs) = ap (λ l. x ∷ l) (take-length-take n xs)

-- The slice at an offset is what was written there, and the buffer holds the same as before.
pub record Sliced (base : ℕ) (written : List ℕ) (offset : ℕ) (b : SendDataBuffer)
    (out : List ℕ × SendDataBuffer) : Type 0 where
  pub holds : Holds out.1 base written
  pub window : out.1.window_size ≡ b.window_size
  pub size : out.1.buffer_size ≡ b.buffer_size
  pub found : (out.0 ≡ []) ⊎ (base ≤ offset)
  pub inside : length out.0 ≤ length written - offset
  pub bytes : out.0 ≡ [] ⊎ (out.0 ≡ take (length out.0) (drop offset written))

pub get_slice-Sliced :
    (b : SendDataBuffer) (base : ℕ) (written : List ℕ) (offset size : ℕ)
    → Holds b base written
    → 2 * b.window_size < max_index
    → offset ≤ max_index
    → Sliced base written offset b (get_slice b offset size)
unfolding get_slice
get_slice-Sliced b base written offset size h half index =
    let (kept, same) = slice_from-Contiguous b.window_size base b.views offset size h.contiguous in
    let found = (slice_from b.window_size b.views offset size).0 in
    let held : Holds (get_slice b offset size).1 base written = record {
      contiguous = kept;
      ends = omega (arith, ap length same, h.ends);
      bytes = same ∙ h.bytes;
      counted = omega (arith, ap length same, h.counted);
    } in
    elim (dec_lt offset base) [
      | yes early ↦
          let nothing =
            slice_from_early b.window_size half base b.views offset size h.contiguous early in
          record {
            holds = held;
            window = refl;
            size = refl;
            found = inl nothing;
            inside = omega (arith, ap length nothing);
            bytes = inl nothing;
          }
      | no later ↦
          let cut = (get_slice_lem b base offset size h.contiguous half (omega arith) index).0 in
          let there : found ≡ take size (drop offset written) =
            cut
            ∙ (ap (λ l. take size (drop (offset - base) l)) h.bytes
                ∙ ap (take size) (
                    sym (drop-add base (offset - base) written)
                    ∙ ap (λ n. drop n written) {x = base + (offset - base)} {y = offset}
                        (omega arith))) in
          record {
            holds = held;
            window = refl;
            size = refl;
            found = inr (omega arith);
            inside = omega (
              arith,
              ap length there,
              length-take size (drop offset written),
              length-drop offset written,
            );
            bytes = inr (
                there
                ∙ (take-length-take size (drop offset written)
                    ∙ ap (λ l. take (length l) (drop offset written)) (sym there)));
          }
    ]
