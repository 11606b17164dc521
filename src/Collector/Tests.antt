-- ===== src/Collector/Tests.antt =====
-- Runs of the packet collector.
use aether_client_cpp_new.Prelude.{ℕ, ◌≡◌, refl, arith, List, [], ◌∷◌, All}
use mathlib.Core.List.{flatten}
use aether_client_cpp_new.MStream.{to_bytes, read_uint}
use aether_client_cpp_new.Packed.{limit, serialize, deserialize}
use aether_client_cpp_new.Collector.{create, add_data}
use aether_client_cpp_new.Collector.Round.{IsFrame}
use aether_client_cpp_new.Collector.Frames.{frames, feed, popped, popped-feed}

abbrev sent : List (List ℕ)
sent = (1 ∷ 2 ∷ 3 ∷ []) ∷ (7 ∷ []) ∷ []

abbrev pieces : List (List ℕ)
pieces = (3 ∷ 1 ∷ []) ∷ (2 ∷ []) ∷ (3 ∷ 1 ∷ []) ∷ (7 ∷ []) ∷ []

sent_fit : All IsFrame sent
unfolding limit
sent_fit = (
  record { full = omega arith; fits = omega arith },
  (record { full = omega arith; fits = omega arith }, tt),
)

pieces_of_frames : flatten pieces ≡ frames sent
unfolding flatten serialize limit to_bytes
pieces_of_frames = refl

popped-feed_example : popped 2 (feed create pieces) ≡ (sent, create)
popped-feed_example = popped-feed sent pieces sent_fit pieces_of_frames

-- A size of 0 ends the call, with the packet behind it lost.
empty_packet_first : (add_data create (0 ∷ 1 ∷ 7 ∷ [])).packets ≡ []
unfolding create add_data deserialize read_uint limit
empty_packet_first = refl
