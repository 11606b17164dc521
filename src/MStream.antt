-- ===== src/MStream.antt =====
-- aether/mstream.h and mstream_buffers.h: the byte streams that values are written to and read from.
-- A byte is a number below 256. Integers are copied as they lie in memory, on a little-endian machine.
pub mod Laws
pub mod Ahead
pub mod Containers
pub mod RoundTrip
mod Tests
use aether_client_cpp_new.Prelude.{
  ℕ, zero, suc, ◌+◌, ◌*◌, ◌/◌, ◌%◌, ◌^◌, Bool, true, false, Option, none, some, List, [], ◌∷◌, ◌++◌,
  ltb, if◌then◌else◌, length, take, drop,
}

-- the bytes of an unsigned integer of `size` bytes
unfoldable pub to_bytes : ℕ → ℕ → List ℕ
to_bytes zero v = []
to_bytes (suc size) v = v % 256 ∷ to_bytes size (v / 256)

unfoldable pub of_bytes : List ℕ → ℕ
of_bytes [] = 0
of_bytes (b ∷ bs) = b + 256 * of_bytes bs

-- `VectorWriter::write`, and `operator<<` of an unsigned integer through it
unfoldable pub write : List ℕ → List ℕ → List ℕ
write target source = target ++ source

unfoldable pub write_uint : ℕ → List ℕ → ℕ → List ℕ
unfolding to_bytes write
write_uint size target v = write target (to_bytes size v)

-- `VectorReader`; `result` is whether `result_` is `kYes`
pub record VectorReader : Type 0 where
  pub bytes : List ℕ
  pub offset : ℕ
  pub result : Bool

-- `VectorReader::read`: what is copied to the destination, `none` if it is left alone
unfoldable pub read : VectorReader → ℕ → Option (List ℕ) × VectorReader
read r size =
    if ltb (length r.bytes) (r.offset + size) then (none, record r { result = false }) else (
      some (take size (drop r.offset r.bytes)),
      record r { offset = r.offset + size; result = true },
    )

-- a read integer, if there is one
unfoldable pub uint_of : Option (List ℕ) → Option ℕ
unfolding of_bytes
uint_of none = none
uint_of (some bs) = some (of_bytes bs)

-- `operator>>` of an unsigned integer
unfoldable pub read_uint : ℕ → VectorReader → Option ℕ × VectorReader
unfolding read uint_of
read_uint size r = let (found, r') = read r size in (uint_of found, r')
