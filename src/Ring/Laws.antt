-- ===== src/Ring/Laws.antt =====
-- What the moves and the distance of `RingIndex` compute.
use aether_client_cpp_new.Prelude.{ℕ, ◌+◌, ◌-◌, ◌%◌, ◌≤◌, ◌<◌, ◌≡◌, arith, ltb, if◌then◌else◌}
use native.Mathlib.Nat.{mod-eq_of_lt, mod-eq-sub-mod}
use native.Mathlib.Decide.{dec_lt}
use aether_client_cpp_new.Ring.{clockwise, counter_clockwise, distance, plus, minus}

module _ (max : ℕ) where
  pub clockwise_plain : (i v : ℕ) → v < max → i + v ≤ max → clockwise max i v ≡ i + v
  unfolding clockwise
  clockwise_plain i v hv h = ground (arith, mod-eq_of_lt {n = v} {m = max})

  pub clockwise_wrapped :
      (i v : ℕ) → v < max → i ≤ max → max < i + v → clockwise max i v ≡ i + v - (max + 1)
  unfolding clockwise
  clockwise_wrapped i v hv hi h = ground (arith, mod-eq_of_lt {n = v} {m = max})

  pub clockwise-le : (i v : ℕ) → 0 < max → i ≤ max → clockwise max i v ≤ max
  unfolding clockwise
  clockwise-le i v hm hi = ground (arith, mod-eq_of_lt {n = v} {m = max})

  -- For an index up to `max` and a step below `max`, `Clockwise` adds modulo `max + 1`.
  pub clockwise-eq-add_mod : (i v : ℕ) → i ≤ max → v < max → clockwise max i v ≡ (i + v) % (max + 1)
  clockwise-eq-add_mod i v hi hv = elim (dec_lt max (i + v)) [
    | yes w ↦ omega (
      arith,
      clockwise_wrapped i v hv hi w,
      mod-eq-sub-mod {n = i + v} {m = max + 1} (omega arith),
      mod-eq_of_lt {n = i + v - (max + 1)} {m = max + 1} (omega arith),
    )
    | no w ↦ omega (
      arith,
      clockwise_plain i v hv (omega arith),
      mod-eq_of_lt {n = i + v} {m = max + 1} (omega arith),
    )
  ]

  -- For an index and a step below `max`, `CounterClockwise` subtracts modulo `max`.
  pub counter_clockwise-eq-sub_mod :
      (i v : ℕ) → i < max → v < max → counter_clockwise max i v ≡ (i + max - v) % max
  unfolding counter_clockwise
  counter_clockwise-eq-sub_mod i v hi hv = grind (arith, mod-eq_of_lt {n = v} {m = max})

  -- A step below `max` forward and the same step back: the start if no wrap was passed, and one
  -- less than the start if one was.
  pub counter_clockwise-clockwise :
      (i v : ℕ)
      → i ≤ max
      → v < max
      → counter_clockwise max (clockwise max i v) v ≡ (if ltb max (i + v) then i - 1 else i)
  unfolding clockwise counter_clockwise
  counter_clockwise-clockwise i v hi hv = grind (arith, mod-eq_of_lt {n = v} {m = max})

  -- The distance to the index a step below `max` ahead: the step if no wrap lies between, and one
  -- less than the step if one does.
  pub distance-clockwise :
      (i v : ℕ)
      → i ≤ max
      → v < max
      → distance max i (clockwise max i v) ≡ (if ltb max (i + v) then v - 1 else v)
  unfolding clockwise distance
  distance-clockwise i v hi hv = grind (arith, mod-eq_of_lt {n = v} {m = max})

  pub distance_ahead : (i j : ℕ) → i ≤ j → j ≤ max → distance max i j ≡ j - i
  unfolding distance
  distance_ahead i j h hj = ground arith

  pub distance_behind : (i j : ℕ) → j < i → i ≤ max → distance max i j ≡ max - i + j
  unfolding distance
  distance_behind i j h hi = ground arith

  pub plus_plain : (i v : ℕ) → v < max → i + v ≤ max → plus max i v ≡ i + v
  unfolding plus
  plus_plain i v hv h = ground (arith, clockwise_plain i v)

  pub minus_plain : (i v : ℕ) → v < max → v ≤ i → minus max i v ≡ i - v
  unfolding minus
  minus_plain i v hv h = ground (arith, mod-eq_of_lt {n = v} {m = max})
