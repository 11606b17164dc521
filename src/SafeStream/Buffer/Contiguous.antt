-- ===== src/SafeStream/Buffer/Contiguous.antt =====
-- The actions of `SendDataBuffer` cover one range of offsets, and `GetSlice` cuts from their data.
use aether_client_cpp_new.Prelude.{
  ℕ, ◌+◌, ◌-◌, ◌*◌, ◌≤◌, ◌<◌, ◌≡◌, ◌↔◌, refl, sym, ap, ◌∙◌, List, [], ◌∷◌, ◌++◌, arith, length,
  take, drop, length-drop, take_append, take_all, drop_append_le, drop_all, drop-add,
  drop-length_append, take-nil, append-nil, min, true, false, Bool-cases, inl, inr, ◌==◌,
}
use native.Mathlib.Decide.{dec_lt}
use aether_client_cpp_new.Ring.{clockwise, distance}
use aether_client_cpp_new.Ring.Laws.{plus_plain, clockwise_plain, distance_ahead}
use aether_client_cpp_new.SafeStream.Types.{max_index, u16, sub_size, in_range}
use aether_client_cpp_new.SafeStream.Types.Ranges.{IsPlain, in_range_iff}
use aether_client_cpp_new.SafeStream.Action.{SendingDataAction, get_offset_range, mark_sending}
use aether_client_cpp_new.SafeStream.Buffer.{SendDataBuffer, slice_loop, slice_from, get_slice}
use aether_client_cpp_new.SafeStream.Buffer.Marks.{shapes, shapes-slice_from}

-- the data of the actions, one after the other
abbrev pub joined : List SendingDataAction → List ℕ
joined [] = []
joined (a ∷ more) = a.bytes ++ joined more

-- Each action has data, fits the window, and starts where the one before it ends; none reaches the
-- wrap.
abbrev pub Contiguous : ℕ → ℕ → List SendingDataAction → Type 0
Contiguous window base [] = Unit
Contiguous window base (a ∷ more) =
    (a.offset ≡ base)
    × (0 < length a.bytes)
    × (length a.bytes ≤ window)
    × (base + length a.bytes ≤ max_index)
    × Contiguous window (base + length a.bytes) more

-- The range of an action that does not pass the wrap ends with its last byte.
pub get_offset_range_end :
    (a : SendingDataAction) (window : ℕ)
    → 0 < length a.bytes
    → a.offset + length a.bytes ≤ max_index
    → (get_offset_range a window).end ≡ a.offset + length a.bytes - 1
unfolding get_offset_range
get_offset_range_end a window h t =
    let last : u16 (sub_size (length a.bytes) 1) ≡ length a.bytes - 1 = omega arith in
    rw last (
      omega (arith, plus_plain max_index a.offset (length a.bytes - 1) (omega arith) (omega arith)))

pub get_offset_range-IsPlain :
    (a : SendingDataAction) (window : ℕ)
    → 0 < length a.bytes
    → length a.bytes ≤ window
    → a.offset + length a.bytes ≤ max_index
    → 2 * window < max_index
    → IsPlain (get_offset_range a window)
unfolding get_offset_range
get_offset_range-IsPlain a window h w t half =
    let e : (get_offset_range a window).end ≡ a.offset + length a.bytes - 1 =
      get_offset_range_end a window h t in
    record { ordered = omega arith; top = omega arith; covered = omega arith; half = half }

-- a cut that starts in the first action, by whether it ends there
pub cut_inside :
    (n d : ℕ) (xs ys : List ℕ)
    → d ≤ length xs
    → n ≤ length xs - d
    → take n (drop d (xs ++ ys)) ≡ take n (drop d xs)
cut_inside n d xs ys hd hn =
    ap (take n) (drop_append_le d xs ys hd) ∙ take_append n (drop d xs) ys ∙ none_left
  where
    spent : n - length (drop d xs) ≡ 0
    spent = omega (arith, length-drop d xs)

    none_left : take n (drop d xs) ++ take (n - length (drop d xs)) ys ≡ take n (drop d xs)
    none_left = rw spent (append-nil (take n (drop d xs)))

cut_past :
    (n d : ℕ) (xs ys : List ℕ)
    → d ≤ length xs
    → length xs - d ≤ n
    → take n (drop d (xs ++ ys)) ≡ drop d xs ++ take (n - (length xs - d)) ys
cut_past n d xs ys hd hn =
    ap (take n) (drop_append_le d xs ys hd) ∙ take_append n (drop d xs) ys ∙ all
  where
    size : length (drop d xs) ≡ length xs - d
    size = length-drop d xs

    all :
        take n (drop d xs) ++ take (n - length (drop d xs)) ys
        ≡ drop d xs ++ take (n - (length xs - d)) ys
    all = rw (take_all n (drop d xs) (omega (arith, size)), size) refl

-- One round of the loop, started in the first action, given what the later rounds return.
slice_loop_round :
    (base : ℕ) (a : SendingDataAction) (more : List SendingDataAction) (remaining current : ℕ)
    → a.offset ≡ base
    → base + length a.bytes ≤ max_index
    → length a.bytes < max_index
    → base ≤ current
    → current < base + length a.bytes
    → (slice_loop more (remaining - (length a.bytes - (current - base))) (base + length a.bytes)).0
      ≡ take (remaining - (length a.bytes - (current - base))) (joined more)
    → (slice_loop (a ∷ more) remaining current).0
      ≡ take remaining (drop (current - base) (a.bytes ++ joined more))
unfolding slice_loop
slice_loop_round base a more remaining current at top short hb hc later =
    let skipped : distance max_index a.offset current ≡ current - base =
      omega (arith, distance_ahead max_index a.offset current (omega arith) (omega arith)) in
    let left : sub_size (length a.bytes) (current - base) ≡ length a.bytes - (current - base) =
      omega arith in
    elim (dec_lt (length a.bytes - (current - base)) remaining) [
      | yes p ↦
          let all : min (length a.bytes - (current - base)) remaining
              ≡ length a.bytes - (current - base) =
            omega arith in
          let goes_on : (remaining - (length a.bytes - (current - base)) == 0) ≡ false =
            ground arith in
          let moved : clockwise max_index current (u16 (length a.bytes - (current - base)))
              ≡ base + length a.bytes =
            moves in
          rw (skipped, left, all, goes_on, moved, later)
            (rw
              (cut_past remaining (current - base) a.bytes (joined more) (omega arith)
                (omega arith))
              (ap (λ t. t ++ take (remaining - (length a.bytes - (current - base))) (joined more))
                (take_all (length a.bytes - (current - base)) (drop (current - base) a.bytes)
                  (omega (arith, length-drop (current - base) a.bytes)))))
      | no p ↦
          let part : min (length a.bytes - (current - base)) remaining ≡ remaining = omega arith in
          let ends : (remaining - remaining == 0) ≡ true = ground arith in
          rw (skipped, left, part, ends)
            (sym (
              cut_inside remaining (current - base) a.bytes (joined more) (omega arith)
                (omega arith)))
    ]
  where
    small : u16 (length a.bytes - (current - base)) ≡ length a.bytes - (current - base)
    small = omega arith

    moves :
        clockwise max_index current (u16 (length a.bytes - (current - base)))
        ≡ base + length a.bytes
    moves = rw small (
        omega (
          arith,
          clockwise_plain max_index current (length a.bytes - (current - base)) (omega arith)
              (omega arith),
        ))

pub drop_past :
    (offset base : ℕ) (xs ys : List ℕ)
    → base + length xs ≤ offset
    → drop (offset - base) (xs ++ ys) ≡ drop (offset - (base + length xs)) ys
drop_past offset base xs ys h =
    ap (λ k. drop k (xs ++ ys)) split
    ∙ drop-add (length xs) (offset - (base + length xs)) (xs ++ ys)
    ∙ ap (drop (offset - (base + length xs))) (drop-length_append xs ys)
  where
    split : offset - base ≡ length xs + (offset - (base + length xs))
    split = omega arith

module _ (window : ℕ) (half : 2 * window < max_index) where
  slice_loop-eq-cut :
      (base : ℕ) (a : SendingDataAction) (more : List SendingDataAction) (remaining current : ℕ)
      → Contiguous window base (a ∷ more)
      → base ≤ current
      → current < base + length a.bytes
      → (slice_loop (a ∷ more) remaining current).0
        ≡ take remaining (drop (current - base) (a.bytes ++ joined more))
  slice_loop-eq-cut base a [] remaining current (at, full, fits, top, vs) hb hc =
      slice_loop_round base a [] remaining current at top (omega arith) hb hc
        (unfold slice_loop in sym (take-nil (remaining - (length a.bytes - (current - base)))))
  slice_loop-eq-cut base a (b ∷ bs) remaining current (at, full, fits, top, vs) hb hc =
      slice_loop_round base a (b ∷ bs) remaining current at top (omega arith) hb hc (
        slice_loop-eq-cut (base + length a.bytes) b bs
          (remaining - (length a.bytes - (current - base))) (base + length a.bytes) vs (omega arith)
          (omega arith)
        ∙ ap
            (λ k. take (remaining - (length a.bytes - (current - base))) (drop k (joined (b ∷ bs))))
            none)
    where
      none : base + length a.bytes - (base + length a.bytes) ≡ 0
      none = omega arith

  pub in_range-first :
      (base : ℕ) (a : SendingDataAction) (more : List SendingDataAction) (offset : ℕ)
      → Contiguous window base (a ∷ more)
      → base ≤ offset
      → offset ≤ max_index
      → (in_range (get_offset_range a window) offset ≡ true) ↔ (offset < base + length a.bytes)
  in_range-first base a more offset (at, full, fits, top, vs) hb ho =
      let plain : IsPlain (get_offset_range a window) =
        get_offset_range-IsPlain a window full fits (omega arith) half in
      let e : (get_offset_range a window).end ≡ a.offset + length a.bytes - 1 =
        get_offset_range_end a window full (omega arith) in
      let (there, back) = in_range_iff plain offset ho in
      (λ h. omega (arith, there h), λ h. back (unfold get_offset_range in omega arith, omega arith))

  slice_from-eq-cut :
      (base : ℕ) (views : List SendingDataAction) (offset max_size : ℕ)
      → Contiguous window base views
      → base ≤ offset
      → offset ≤ max_index
      → (slice_from window views offset max_size).0
        ≡ take max_size (drop (offset - base) (joined views))
  unfolding slice_from
  slice_from-eq-cut base [] offset max_size v hb ho =
      sym (ap (take max_size) (drop_all (offset - base) [] (omega arith)) ∙ take-nil max_size)
  slice_from-eq-cut base (a ∷ more) offset max_size (at, full, fits, top, vs) hb ho =
      elim (Bool-cases (in_range (get_offset_range a window) offset)) [
        | inl e ↦ rw e (
            slice_loop-eq-cut base a more max_size offset (at, full, fits, top, vs) hb
              ((in_range-first base a more offset (at, full, fits, top, vs) hb ho).0 e))
        | inr e ↦
            let past : base + length a.bytes ≤ offset =
              elim (dec_lt offset (base + length a.bytes)) [
                | yes p ↦
                    cc ((in_range-first base a more offset (at, full, fits, top, vs) hb ho).1 p)
                | no p ↦ omega arith
              ] in
            rw e (
              slice_from-eq-cut (base + length a.bytes) more offset max_size vs past ho
              ∙ sym (ap (take max_size) (drop_past offset base a.bytes (joined more) past)))
      ]

-- The marks of `GetSlice` change no data and no offset.
slice_loop-Contiguous :
    (window base : ℕ) (views : List SendingDataAction) (remaining current : ℕ)
    → Contiguous window base views
    → Contiguous window base (slice_loop views remaining current).1
      × (joined (slice_loop views remaining current).1 ≡ joined views)
unfolding slice_loop mark_sending
slice_loop-Contiguous window base [] remaining current v = (tt, refl)
slice_loop-Contiguous window base (a ∷ more) remaining current (at, full, fits, top, vs) =
    let skipped = distance max_index a.offset current in
    let data_size = min (sub_size (length a.bytes) skipped) remaining in
    let (kept, same) =
      slice_loop-Contiguous window (base + length a.bytes) more (remaining - data_size)
        (clockwise max_index current (u16 data_size)) vs in
    elim (Bool-cases (remaining - data_size == 0)) [
      | inl e ↦ rw e ((at, full, fits, top, vs), refl)
      | inr e ↦ rw e ((at, full, fits, top, kept), ap (λ t. a.bytes ++ t) same)
    ]

pub slice_from-Contiguous :
    (window base : ℕ) (views : List SendingDataAction) (offset max_size : ℕ)
    → Contiguous window base views
    → Contiguous window base (slice_from window views offset max_size).1
      × (joined (slice_from window views offset max_size).1 ≡ joined views)
unfolding slice_from
slice_from-Contiguous window base [] offset max_size v = (tt, refl)
slice_from-Contiguous window base (a ∷ more) offset max_size (at, full, fits, top, vs) =
    let (kept, same) =
      slice_from-Contiguous window (base + length a.bytes) more offset max_size vs in
    elim (Bool-cases (in_range (get_offset_range a window) offset)) [
      | inl e ↦
          rw e
            (slice_loop-Contiguous window base (a ∷ more) max_size offset (at, full, fits, top, vs))
      | inr e ↦ rw e ((at, full, fits, top, kept), ap (λ t. a.bytes ++ t) same)
    ]

-- For actions that cover one range of offsets from `base` on without reaching the wrap, with twice
-- the window below the index limit: the slice at an offset from `base` on is the data from that
-- offset, cut at `max_size`, and each of the buffer's actions keeps its offset and its data.
pub get_slice_lem :
    (b : SendDataBuffer) (base offset max_size : ℕ)
    → Contiguous b.window_size base b.views
    → 2 * b.window_size < max_index
    → base ≤ offset
    → offset ≤ max_index
    → let (bytes, b') = get_slice b offset max_size in
      (bytes ≡ take max_size (drop (offset - base) (joined b.views)))
      × Contiguous b'.window_size base b'.views
      × (joined b'.views ≡ joined b.views)
      × (b'.buffer_size ≡ b.buffer_size)
      × (shapes b'.views ≡ shapes b.views)
unfolding get_slice
get_slice_lem b base offset max_size v half hb ho =
    let (kept, same) = slice_from-Contiguous b.window_size base b.views offset max_size v in
    (
      slice_from-eq-cut b.window_size half base b.views offset max_size v hb ho,
      kept,
      same,
      refl,
      shapes-slice_from b.window_size b.views offset max_size,
    )
