-- ===== src/SafeStream/Types/Ranges.antt =====
-- What `InRange`, `Before` and `After` say of a range that does not pass the wrap.
use aether_client_cpp_new.Prelude.{ℕ, ◌+◌, ◌*◌, ◌≤◌, ◌<◌, ◌≡◌, ◌↔◌, true, arith}
use aether_client_cpp_new.Ring.Laws.{distance_ahead, distance_behind}
use aether_client_cpp_new.SafeStream.Types.{OffsetRange, in_range, before, max_index}
use native.Mathlib.Decide.{dec_lt}

-- A range that the window covers and that does not pass the wrap; half the indices exceed the window.
pub record IsPlain (r : OffsetRange) : Type 0 where
  pub ordered : r.begin ≤ r.end
  pub top : r.end ≤ max_index
  pub covered : r.end ≤ r.begin + r.window_size
  pub half : 2 * r.window_size < max_index

module _ {r : OffsetRange} (v : IsPlain r) where
  -- For a range that does not wrap and is no longer than its window, which is below half the indices,
  -- `InRange` holds exactly of the indices from `begin` to `end`, both included.
  pub in_range_iff :
      (offset : ℕ)
      → offset ≤ max_index
      → (in_range r offset ≡ true) ↔ ((r.begin ≤ offset) × (offset ≤ r.end))
  unfolding in_range
  in_range_iff offset h = elim (dec_lt offset r.begin) [
    | yes p ↦
        ground
          (arith, distance_behind max_index r.begin offset, distance_ahead max_index offset r.end)
    | no p ↦ elim (dec_lt r.end offset) [
      | yes q ↦
          ground
            (arith, distance_ahead max_index r.begin offset, distance_behind max_index offset r.end)
      | no q ↦
          ground
            (arith, distance_ahead max_index r.begin offset, distance_ahead max_index offset r.end)
    ]
  ]

  -- For a range that does not wrap and is no longer than its window, which is below half the indices,
  -- and indices within a window of its end, `Before` holds exactly of those behind `end`.
  pub before_iff :
      (offset : ℕ)
      → offset ≤ max_index
      → r.end ≤ offset + r.window_size
      → offset ≤ r.end + r.window_size
      → (before r offset ≡ true) ↔ (r.end < offset)
  unfolding before
  before_iff offset ht hn hw = elim (dec_lt r.end offset) [
    | yes q ↦ ground (arith, distance_behind max_index offset r.end)
    | no q ↦ ground (arith, distance_ahead max_index offset r.end)
  ]

  -- Of an offset more than a window in front of the end, `Before` holds too.
  pub before_far : (offset : ℕ) → offset + r.window_size < r.end → before r offset ≡ true
  unfolding before
  before_far offset h = ground (arith, distance_ahead max_index offset r.end, v)
