-- ===== src/SafeStream/Buffer/FarAhead.antt =====
-- `Confirm` of `SendDataBuffer` and the data more than a window ahead of the confirmed offset.
use aether_client_cpp_new.Prelude.{
  ℕ, ◌+◌, ◌-◌, ◌*◌, ◌≤◌, ◌<◌, ◌≡◌, refl, ap, List, [], ◌∷◌, ◌++◌, map, arith, length, All, true,
}
use aether_client_cpp_new.SafeStream.Types.{max_index}
use aether_client_cpp_new.SafeStream.Types.Ranges.{before_far}
use aether_client_cpp_new.SafeStream.Action.{SendingDataAction, get_offset_range, sent_confirmed}
use aether_client_cpp_new.SafeStream.Buffer.{
  SendDataBuffer, remove_views, remove_actions, is_before, confirm,
}
use aether_client_cpp_new.SafeStream.Buffer.Contiguous.{
  get_offset_range_end, get_offset_range-IsPlain,
}

-- An action with data that fits the window, does not reach the wrap, and whose last byte is more
-- than a window ahead of the offset.
pub record IsFar (window offset : ℕ) (a : SendingDataAction) : Type 0 where
  pub full : 0 < length a.bytes
  pub fits : length a.bytes ≤ window
  pub top : a.offset + length a.bytes ≤ max_index
  pub far : offset + window + 1 < a.offset + length a.bytes

is_before-IsFar :
    (window offset : ℕ) (a : SendingDataAction)
    → 2 * window < max_index
    → IsFar window offset a
    → is_before window offset a ≡ true
unfolding is_before get_offset_range
is_before-IsFar window offset a half f =
    let e : (get_offset_range a window).end ≡ a.offset + length a.bytes - 1 =
      get_offset_range_end a window f.full f.top in
    before_far (get_offset_range-IsPlain a window f.full f.fits f.top half) offset
      (omega (arith, e, f))

remove_views-IsFar :
    (window offset : ℕ) (views : List SendingDataAction) (size : ℕ)
    → 2 * window < max_index
    → All (IsFar window offset) views
    → ((remove_views (is_before window offset) sent_confirmed views size).0 ≡ [])
      × ((remove_views (is_before window offset) sent_confirmed views size).1
          ≡ map sent_confirmed views)
unfolding remove_views
remove_views-IsFar window offset [] size half f = (refl, refl)
remove_views-IsFar window offset (a ∷ more) size half (f, fs) =
    rw (is_before-IsFar window offset a half f) (
      let (kept, gone) = remove_views-IsFar window offset more _ half fs in
      (kept, ap (λ l. sent_confirmed a ∷ l) gone))

-- With the window below half the indices: if every action has data that fits the window and does not
-- wrap, and its last byte lies more than a window ahead of the offset, `Confirm` removes all of them
-- and marks them as confirmed, although the offset stands before all of their last bytes.
pub confirm_far_ahead :
    (b : SendDataBuffer) (offset : ℕ)
    → 2 * b.window_size < max_index
    → All (IsFar b.window_size offset) b.views
    → ((confirm b offset).views ≡ [])
      × ((confirm b offset).finished ≡ b.finished ++ map sent_confirmed b.views)
unfolding confirm remove_actions
confirm_far_ahead b offset half f =
    let (kept, gone) = remove_views-IsFar b.window_size offset b.views b.buffer_size half f in
    (kept, ap (λ l. b.finished ++ l) gone)
