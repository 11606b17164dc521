-- ===== src/Packed/Tests.antt =====
-- Runs of `Packed<std::uint64_t, std::uint8_t, 250>`, with values of tests/test-packed-int.
use aether_client_cpp_new.Prelude.{
  ◌≤◌, ◌<◌, ◌≡◌, refl, arith, [], ◌∷◌, ◌++◌, length, true, ltb, if◌then◌else◌,
}
use aether_client_cpp_new.MStream.{VectorReader, to_bytes}
use aether_client_cpp_new.MStream.Laws.{unread, advance}
use aether_client_cpp_new.Packed.{limit, finished, serialize, deserialize}
use aether_client_cpp_new.Packed.Ranges.{packed_round_trip, packed_sizes}

packed_values :
    (serialize 1 250 3 250 ≡ 250 ∷ [])
    × (serialize 1 250 3 251 ≡ 251 ∷ 0 ∷ [])
    × (serialize 1 250 3 1514 ≡ 255 ∷ 239 ∷ [])
    × (serialize 1 250 3 1515 ≡ 255 ∷ 240 ∷ 0 ∷ 0 ∷ [])
unfolding serialize limit to_bytes
packed_values = (refl, refl, refl, refl)

-- the value 2000 behind one byte and before another
abbrev reader : VectorReader
reader = record { bytes = 7 ∷ 255 ∷ 240 ∷ 229 ∷ 1 ∷ 9 ∷ []; offset = 1; result = true }

value_2000 : serialize 1 250 3 2000 ≡ 255 ∷ 240 ∷ 229 ∷ 1 ∷ []
unfolding serialize limit to_bytes
value_2000 = refl

below_upper : 2000 < (limit 1 250 3).upper
unfolding limit
below_upper = omega arith

reader_starts : unread reader ≡ serialize 1 250 3 2000 ++ (9 ∷ [])
unfolding serialize limit to_bytes
reader_starts = refl

packed_round_trip_example :
    (deserialize 1 250 3 reader ≡ record {
      res = finished;
      value = 2000;
      reader = advance reader (length (serialize 1 250 3 2000));
    })
    × (length (serialize 1 250 3 2000) ≤ 8)
packed_round_trip_example =
    packed_round_trip 250 (omega arith) 2000 reader (9 ∷ []) below_upper reader_starts

packed_sizes_example : length (serialize 1 250 3 2000) ≡ (
    if ltb 2000 251 then 1 else (if ltb 2000 1515 then 2 else (if ltb 2000 1049835 then 4 else 8)))
packed_sizes_example = packed_sizes 2000 below_upper
