-- ===== src/Ring.antt =====
-- aether/ring_buffer.h: `RingIndex<T, Max>` for an unsigned `T`.
-- An index is the number `value_`; `max` stands for the template's `Max`. The operands are
-- promoted to a wider type before they are added, so no sum here wraps in `T`.
pub mod Laws
mod Tests
use aether_client_cpp_new.Prelude.{ℕ, ◌+◌, ◌-◌, ◌%◌, ltb, leb, if◌then◌else◌}

module _ (max : ℕ) where
  -- the constructor from a number
  unfoldable pub of_value : ℕ → ℕ
  of_value val = val % max

  unfoldable pub clockwise : ℕ → ℕ → ℕ
  clockwise value val =
      let v = val % max in if ltb (max - v) value then v - (max - value) - 1 else value + v

  unfoldable pub counter_clockwise : ℕ → ℕ → ℕ
  counter_clockwise value val =
      let v = val % max in if ltb value v then max - (v - value) else value - v

  unfoldable pub distance : ℕ → ℕ → ℕ
  distance value other =
      let a = max - value in let b = max - other in if leb b a then a - b else a + other

  -- `operator+` and `operator+=`; a zero step is skipped
  unfoldable pub plus : ℕ → ℕ → ℕ
  unfolding clockwise
  plus index val = if ltb 0 val then clockwise index val else index

  -- `operator-` and `operator-=`
  unfoldable pub minus : ℕ → ℕ → ℕ
  unfolding counter_clockwise
  minus index val = if ltb 0 val then counter_clockwise index val else index
