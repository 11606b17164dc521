-- ===== src/Packed.antt =====
-- aether/packed_int.h: integers of variable length, `Packed<MaxStored, MinStored, MinMaxStoredValue>`.
-- The first range has `min_bytes` bytes and holds the values up to `max_value`; each further range
-- has twice the bytes. `level` counts the ranges above the first one.
pub mod RoundTrip
pub mod Ranges
pub mod Cut
mod Tests
use aether_client_cpp_new.Prelude.{
  ℕ, zero, suc, ◌+◌, ◌-◌, ◌*◌, ◌/◌, ◌%◌, ◌^◌, Bool, Option, none, some, List, ◌++◌, ltb, leb,
  if◌then◌else◌,
}
use aether_client_cpp_new.MStream.{to_bytes, VectorReader, read_uint}

-- `Limit` of one range. The type has `bytes` bytes, so `256 ^ bytes` values.
pub record Limit : Type 0 where
  pub bytes : ℕ
  pub max_stored : ℕ
  pub upper : ℕ
  pub borrow_count : ℕ
  pub p : ℕ

-- `kAbsoluteMaxValue + 1`: types below `int` are promoted, the others wrap to 0
abbrev count_of : ℕ → ℕ
count_of bytes = if ltb bytes 4 then 256 ^ bytes else 0

-- The specialisation for the first range. Its upper bound is cut to the type of the range. `kP` is 1 shifted by half the digits.
unfoldable pub first_limit : ℕ → ℕ → Limit
first_limit min_bytes max_value =
    let borrow = 256 ^ min_bytes - 1 - max_value in
    record {
      bytes = min_bytes;
      max_stored = count_of min_bytes;
      upper = (256 ^ min_bytes - 1 - borrow + 1) % 256 ^ min_bytes;
      borrow_count = borrow;
      p = 16 ^ min_bytes;
    }

unfoldable pub next_limit : Limit → Limit
next_limit l =
    let size = 256 ^ (2 * l.bytes) in
    let max_stored =
      (l.max_stored % size + size - l.borrow_count + l.borrow_count * 256 ^ l.bytes) % size in
    record {
      bytes = 2 * l.bytes;
      max_stored = max_stored;
      upper = (max_stored + size - l.p) % size;
      borrow_count = l.p;
      p = 16 ^ (2 * l.bytes);
    }

unfoldable pub limit : ℕ → ℕ → ℕ → Limit
unfolding first_limit next_limit
limit min_bytes max_value zero = first_limit min_bytes max_value
limit min_bytes max_value (suc level) = next_limit (limit min_bytes max_value level)

-- `PackedDeserializeRes`
pub data PackedDeserializeRes : Type 0 where
  not_read finished next : PackedDeserializeRes

pub record Read : Type 0 where
  pub res : PackedDeserializeRes
  pub value : ℕ
  pub reader : VectorReader

-- `if (value >= kUpper) { value -= kUpper; return kNext; }`, and `kFinished` else
unfoldable pub classify : ℕ → ℕ → VectorReader → Read
classify upper value r =
    if leb upper value
    then record { res = next; value = value - upper; reader = r }
    else record { res = finished; value = value; reader = r }

-- What is done with the integer that was read. A value that was not read is left as it is, here 0.
unfoldable pub first_read : ℕ → Option ℕ → VectorReader → Read
unfolding classify
first_read upper none r = record { res = not_read; value = 0; reader = r }
first_read upper (some v) r = classify upper v r

-- The same in a range above the first: `high` is the value of the range before, less its upper bound.
unfoldable pub low_read : Limit → Limit → ℕ → Option ℕ → VectorReader → Read
unfolding classify
low_read prev l high none r = record { res = not_read; value = 0; reader = r }
low_read prev l high (some low) r =
    classify l.upper ((high * 256 ^ prev.bytes + low + prev.upper) % 256 ^ l.bytes) r

unfoldable pub high_read : Limit → Limit → Read → Read
unfolding low_read
high_read prev l high =
    let (low, r) = read_uint prev.bytes high.reader in
    elim high.res [ not_read ↦ high | finished ↦ high | next ↦ low_read prev l high.value low r ]

module _ (min_bytes max_value : ℕ) where
  -- `Serialize`; the constructor of the range before casts its argument to its type
  unfoldable pub serialize : ℕ → ℕ → List ℕ
  serialize zero v = to_bytes min_bytes v
  serialize (suc level) v =
      let prev = limit min_bytes max_value level in
      let size = 256 ^ prev.bytes in
      let modified = v - prev.upper in
      let large = serialize level ((modified / size + prev.upper) % size) in
      let small = serialize level (v % size) in
      if leb prev.upper v then large ++ to_bytes prev.bytes (modified % size) else small

  -- `Deserialize`
  unfoldable pub deserialize : ℕ → VectorReader → Read
  unfolding first_read high_read
  deserialize zero r =
      let (found, r') = read_uint min_bytes r in
      first_read (limit min_bytes max_value zero).upper found r'
  deserialize (suc level) r =
      high_read (limit min_bytes max_value level) (limit min_bytes max_value (suc level))
        (deserialize level r)
