-- ===== src/SafeStream/Types.antt =====
-- aether/stream_api/safe_stream/safe_stream_types.h: indices, ranges, chunks, configuration.
-- An index is the `value_` of `RingIndex<uint16_t>`, whose `Max` is 65535. A `TimePoint` and a
-- `Duration` are numbers of ticks.
pub mod Ranges
use aether_client_cpp_new.Prelude.{ℕ, ◌%◌, ◌^◌, ◌+◌, ◌-◌, Bool, ltb, leb, ◌&&◌}
use aether_client_cpp_new.Ring.{distance}

-- `std::numeric_limits<std::uint16_t>::max()`
abbrev pub max_index : ℕ
max_index = 65535

-- `static_cast<std::uint16_t>`
abbrev pub u16 : ℕ → ℕ
u16 x = x % 2 ^ 16

-- `size_t` subtraction
abbrev pub sub_size : ℕ → ℕ → ℕ
sub_size a b = (a + 2 ^ 64 - b) % 2 ^ 64

pub record OffsetRange : Type 0 where
  pub begin : ℕ
  pub end : ℕ
  pub window_size : ℕ

unfoldable pub in_range : OffsetRange → ℕ → Bool
in_range r offset =
    leb (distance max_index r.begin offset) r.window_size
    && leb (distance max_index offset r.end) r.window_size

unfoldable pub before : OffsetRange → ℕ → Bool
before r offset = ltb r.window_size (distance max_index offset r.end)

unfoldable pub after : OffsetRange → ℕ → Bool
after r offset = ltb r.window_size (distance max_index r.begin offset)

pub record SendingChunk : Type 0 where
  pub begin_offset : ℕ
  pub end_offset : ℕ
  pub repeat_count : ℕ
  pub send_time : ℕ

pub record SafeStreamConfig : Type 0 where
  pub buffer_capacity : ℕ
  pub window_size : ℕ
  pub max_data_size : ℕ
  pub wait_confirm_timeout : ℕ
  pub send_confirm_timeout : ℕ
  pub send_repeat_timeout : ℕ
  pub max_repeat_count : ℕ
