-- ===== src/Packed/Ranges.antt =====
-- The instances of packed_int.h with a first range of one byte.
use aether_client_cpp_new.Prelude.{
  ℕ, ◌+◌, ◌≤◌, ◌<◌, ◌≡◌, ◌∙◌, refl, arith, List, ◌++◌, length, ltb, if◌then◌else◌,
}
use native.Mathlib.Decide.{dec_lt}
use aether_client_cpp_new.MStream.{VectorReader}
use aether_client_cpp_new.MStream.Laws.{unread, advance}
use aether_client_cpp_new.Packed.{limit, finished, serialize, deserialize}
use aether_client_cpp_new.Packed.RoundTrip.{
  Chain, IsSound, length-serialize-le, deserialize-serialize, length-serialize_full,
  serialize_small, serialize_first,
}

module _ (max_value : ℕ) (small : max_value < 255) where
  IsSound-u16 : IsSound (limit 1 max_value 0) (limit 1 max_value 1)
  unfolding limit
  IsSound-u16 = omega arith

  IsSound-u32 : IsSound (limit 1 max_value 1) (limit 1 max_value 2)
  unfolding limit
  IsSound-u32 = omega arith

  IsSound-u64 : IsSound (limit 1 max_value 2) (limit 1 max_value 3)
  unfolding limit
  IsSound-u64 = omega arith

  first_u8 : Chain 1 max_value 0
  unfolding limit
  first_u8 = omega arith

  -- `std::uint64_t` on top of `std::uint8_t`
  pub Chain-u64 : Chain 1 max_value 3
  Chain-u64 = (((first_u8, IsSound-u16), IsSound-u32), IsSound-u64)

  -- For a largest one-byte value below 255: a
  -- `Packed<std::uint64_t, std::uint8_t, max_value>` below its upper bound, written at the
  -- reader's place and followed by anything, is read back as finished, and the reader stands behind
  -- its bytes, of which there are at most eight.
  pub packed_round_trip :
      (v : ℕ) (r : VectorReader) (rest : List ℕ)
      → v < (limit 1 max_value 3).upper
      → unread r ≡ serialize 1 max_value 3 v ++ rest
      → (deserialize 1 max_value 3 r ≡ record {
        res = finished;
        value = v;
        reader = advance r (length (serialize 1 max_value 3 v));
      })
        × (length (serialize 1 max_value 3 v) ≤ 8)
  packed_round_trip v r rest h e = (
    deserialize-serialize 1 max_value 3 v r rest Chain-u64 h e,
    omega (arith, length-serialize-le 1 max_value 3 v Chain-u64 (omega arith), bytes_u64),
  )
    where
      bytes_u64 : (limit 1 max_value 3).bytes ≡ 8
      bytes_u64 = unfold limit in refl

-- the upper bounds for a largest one-byte value of 250
uppers :
    ((limit 1 250 0).upper ≡ 251)
    × ((limit 1 250 1).upper ≡ 1515)
    × ((limit 1 250 2).upper ≡ 1049835)
    × ((limit 1 250 3).upper + (limit 1 250 3).borrow_count ≡ 1099512677611)
unfolding limit
uppers = (refl, refl, refl, refl)

bytes_250 : ((limit 1 250 0).bytes ≡ 1) × ((limit 1 250 1).bytes ≡ 2) × ((limit 1 250 2).bytes ≡ 4)
unfolding limit
bytes_250 = (refl, refl, refl)

-- The bytes that the comment of `Packed` states for a largest one-byte value of 250: 0 to 250 take
-- one, 251 to 1514 two, 1515 to 1049834 four, and all larger values below the bound eight.
pub packed_sizes :
    (v : ℕ)
    → v < (limit 1 250 3).upper
    → length (serialize 1 250 3 v)
      ≡ (if ltb v 251 then 1 else (if ltb v 1515 then 2 else (if ltb v 1049835 then 4 else 8)))
packed_sizes v h = elim (dec_lt v 251) [
  | yes a ↦ ground (arith, by_u8 a)
  | no a ↦ elim (dec_lt v 1515) [
    | yes b ↦ ground (arith, by_u16 b a)
    | no b ↦ elim (dec_lt v 1049835) [
      | yes c ↦ ground (arith, by_u32 c b)
      | no c ↦ ground (arith, by_u64 c)
    ]
  ]
]
  where
    chain : Chain 1 250 3
    chain = Chain-u64 250 (omega arith)

    by_u64 : ¬ (v < 1049835) → length (serialize 1 250 3 v) ≡ 8
    by_u64 c = omega (
      arith,
      length-serialize_full 1 250 2 v chain (omega arith) (omega (arith, uppers)),
      bytes_250,
    )

    from_u32 : v < 1049835 → serialize 1 250 3 v ≡ serialize 1 250 2 v
    from_u32 c = serialize_small 1 250 2 v chain.1 (omega (arith, uppers))

    by_u32 : v < 1049835 → ¬ (v < 1515) → length (serialize 1 250 3 v) ≡ 4
    by_u32 c b = rw (from_u32 c) (
        omega (
          arith,
          length-serialize_full 1 250 1 v chain.0 (omega (arith, uppers)) (omega (arith, uppers)),
          bytes_250,
        ))

    from_u16 : v < 1515 → serialize 1 250 3 v ≡ serialize 1 250 1 v
    from_u16 b =
        from_u32 (omega arith) ∙ serialize_small 1 250 1 v chain.0.1 (omega (arith, uppers))

    by_u16 : v < 1515 → ¬ (v < 251) → length (serialize 1 250 3 v) ≡ 2
    by_u16 b a = rw (from_u16 b) (
        omega (
          arith,
          length-serialize_full 1 250 0 v chain.0.0 (omega (arith, uppers)) (omega (arith, uppers)),
          bytes_250,
        ))

    by_u8 : v < 251 → length (serialize 1 250 3 v) ≡ 1
    by_u8 a = rw (from_u16 (omega arith)) (
        rw (serialize_small 1 250 0 v chain.0.0.1 (omega (arith, uppers)))
          (serialize_first 1 250 v))
