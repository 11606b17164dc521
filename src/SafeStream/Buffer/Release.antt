-- ===== src/SafeStream/Buffer/Release.antt =====
-- What `Confirm`, `Reject` and `Stop` of `SendDataBuffer` remove, and what they report.
use aether_client_cpp_new.Prelude.{
  ℕ, ◌+◌, ◌-◌, ◌*◌, ◌^◌, ◌≤◌, ◌<◌, ◌≡◌, ◌↔◌, refl, sym, ap, ◌∙◌, List, [], ◌∷◌, ◌++◌, map, arith,
  length, All, leb, length-append, Bool, true, false, Bool-cases, inl, inr, if◌then◌else◌,
}
use native.Mathlib.Decide.{dec_lt}
use aether_client_cpp_new.SafeStream.Types.{max_index, sub_size}
use aether_client_cpp_new.SafeStream.Types.Ranges.{IsPlain, in_range_iff, before_iff}
use aether_client_cpp_new.SafeStream.Action.{
  SendingDataAction, get_offset_range, sent_confirmed, mark_failed, mark_stopped,
}
use aether_client_cpp_new.SafeStream.Buffer.{
  SendDataBuffer, remove_views, remove_actions, is_before, is_reached, confirm, reject, stop,
}
use aether_client_cpp_new.SafeStream.Buffer.Contiguous.{
  joined, get_offset_range_end, get_offset_range-IsPlain,
}

-- An action with data that fits the window, does not reach the wrap, and ends within a window of
-- the offset.
pub record IsNear (window offset : ℕ) (a : SendingDataAction) : Type 0 where
  pub full : 0 < length a.bytes
  pub fits : length a.bytes ≤ window
  pub top : a.offset + length a.bytes ≤ max_index
  pub ahead : a.offset + length a.bytes ≤ offset + window + 1
  pub behind : offset < a.offset + length a.bytes + window

-- the actions of a list that a test picks, and the others
abbrev pub picked : (SendingDataAction → Bool) → List SendingDataAction → List SendingDataAction
picked test [] = []
picked test (a ∷ more) = if test a then a ∷ picked test more else picked test more

abbrev pub others : (SendingDataAction → Bool) → List SendingDataAction → List SendingDataAction
others test [] = []
others test (a ∷ more) = if test a then others test more else a ∷ others test more

-- whether all bytes of an action stand before the offset, and whether its first one does or is there
abbrev pub ends_before : ℕ → SendingDataAction → Bool
ends_before offset a = leb (a.offset + length a.bytes) offset

abbrev pub starts_by : ℕ → SendingDataAction → Bool
starts_by offset a = leb a.offset offset

pub remove_views-lists :
    (test : SendingDataAction → Bool) (mark : SendingDataAction → SendingDataAction)
    (views : List SendingDataAction) (size : ℕ)
    → ((remove_views test mark views size).0 ≡ others test views)
      × ((remove_views test mark views size).1 ≡ map mark (picked test views))
unfolding remove_views
remove_views-lists test mark [] size = (refl, refl)
remove_views-lists test mark (a ∷ more) size = elim (Bool-cases (test a)) [
  | inl e ↦
      rw e (ground (arith, remove_views-lists test mark more (sub_size size (length a.bytes))))
  | inr e ↦ rw e (ground (arith, remove_views-lists test mark more size))
]

pub remove_views-size :
    (test : SendingDataAction → Bool) (mark : SendingDataAction → SendingDataAction)
    (views : List SendingDataAction) (size : ℕ)
    → length (joined views) ≤ size
    → size < 2 ^ 64
    → (remove_views test mark views size).2 + length (joined views)
      ≡ size + length (joined (others test views))
unfolding remove_views
remove_views-size test mark [] size h t = omega arith
remove_views-size test mark (a ∷ more) size h t =
    let sum : length (a.bytes ++ joined more) ≡ length a.bytes + length (joined more) =
      length-append a.bytes (joined more) in
    let less : sub_size size (length a.bytes) ≡ size - length a.bytes = omega arith in
    elim (Bool-cases (test a)) [
      | inl e ↦
          rw (e, less)
            (omega (
              arith,
              remove_views-size test mark more (size - length a.bytes) (omega arith) (omega arith),
            ))
      | inr e ↦ rw e (
          omega (
            arith,
            remove_views-size test mark more size (omega arith) t,
            length-append a.bytes (joined (others test more)),
          ))
    ]

-- tests that agree on a list pick the same of it
picked-eq :
    (test test' : SendingDataAction → Bool) (views : List SendingDataAction)
    → All (λ a. test a ≡ test' a) views
    → (picked test views ≡ picked test' views) × (others test views ≡ others test' views)
picked-eq test test' [] h = (refl, refl)
picked-eq test test' (a ∷ more) (h, hs) = rw h (ground (arith, picked-eq test test' more hs))

Bool-eq_of_iff : (p q : Bool) → (p ≡ true) ↔ (q ≡ true) → p ≡ q
Bool-eq_of_iff true true h = refl
Bool-eq_of_iff true false h = sym (h.0 refl)
Bool-eq_of_iff false true h = h.1 refl
Bool-eq_of_iff false false h = refl

module _ (window offset : ℕ) (half : 2 * window < max_index) (index : offset ≤ max_index) where
  is_before-eq :
      (a : SendingDataAction)
      → IsNear window offset a
      → is_before window offset a ≡ ends_before offset a
  unfolding is_before get_offset_range
  is_before-eq a n =
      let plain : IsPlain (get_offset_range a window) =
        get_offset_range-IsPlain a window n.full n.fits n.top half in
      let e : (get_offset_range a window).end ≡ a.offset + length a.bytes - 1 =
        get_offset_range_end a window n.full n.top in
      let (there, back) = before_iff plain offset index (near e) (close e) in
      Bool-eq_of_iff _ _ (λ h. ground (arith, there h, e, n), λ h. back (ground (arith, h, e, n)))
    where
      near :
          (get_offset_range a window).end ≡ a.offset + length a.bytes - 1
          → (get_offset_range a window).end ≤ offset + window
      near e = omega (arith, e, n)

      close :
          (get_offset_range a window).end ≡ a.offset + length a.bytes - 1
          → offset ≤ (get_offset_range a window).end + window
      close e = omega (arith, e, n)

  is_reached-eq :
      (a : SendingDataAction)
      → IsNear window offset a
      → is_reached window offset a ≡ starts_by offset a
  unfolding is_reached get_offset_range
  is_reached-eq a n =
      let plain : IsPlain (get_offset_range a window) =
        get_offset_range-IsPlain a window n.full n.fits n.top half in
      let e : (get_offset_range a window).end ≡ a.offset + length a.bytes - 1 =
        get_offset_range_end a window n.full n.top in
      let (past, _) = before_iff plain offset index (omega (arith, e, n)) (omega (arith, e, n)) in
      let (_, past') = before_iff plain offset index (omega (arith, e, n)) (omega (arith, e, n)) in
      let (within, _) = in_range_iff plain offset index in
      let (_, within') = in_range_iff plain offset index in
      elim (dec_lt offset a.offset) [
        | yes p ↦
            Bool-eq_of_iff _ _
              (λ h. ground (arith, h, past, within, e, n), λ h. absurd (ground (arith, h)))
        | no p ↦ elim (dec_lt (get_offset_range a window).end offset) [
          | yes q ↦ Bool-eq_of_iff _ _ (λ h. ground arith, λ h. rw (past' q))
          | no q ↦
              Bool-eq_of_iff _ _
                (λ h. ground arith, λ h. rw (within' (omega arith, omega arith)) (ground arith))
        ]
      ]

  All-before :
      (views : List SendingDataAction)
      → All (IsNear window offset) views
      → All (λ a. is_before window offset a ≡ ends_before offset a) views
  All-before [] h = tt
  All-before (a ∷ more) (h, hs) = (is_before-eq a h, All-before more hs)

  All-reached :
      (views : List SendingDataAction)
      → All (IsNear window offset) views
      → All (λ a. is_reached window offset a ≡ starts_by offset a) views
  All-reached [] h = tt
  All-reached (a ∷ more) (h, hs) = (is_reached-eq a h, All-reached more hs)

-- The buffer counts the bytes of its actions.
abbrev pub IsCounted : SendDataBuffer → Type 0
IsCounted b = (b.buffer_size ≡ length (joined b.views)) × (b.buffer_size < 2 ^ 64)

-- a buffer from which `gone` went, marked, and `kept` stayed
pub record Released (mark : SendingDataAction → SendingDataAction)
    (gone kept : List SendingDataAction) (b b' : SendDataBuffer) : Type 0 where
  pub views : b'.views ≡ kept
  pub finished : b'.finished ≡ b.finished ++ map mark gone
  pub counted : b'.buffer_size ≡ length (joined kept)

remove_actions-Released :
    (test test' : SendingDataAction → Bool) (mark : SendingDataAction → SendingDataAction)
    (b : SendDataBuffer)
    → All (λ a. test a ≡ test' a) b.views
    → IsCounted b
    → Released mark (picked test' b.views) (others test' b.views) b (remove_actions test mark b)
unfolding remove_actions
remove_actions-Released test test' mark b same (count, small) =
    let (gone, kept) = picked-eq test test' b.views same in
    let (left, went) = remove_views-lists test mark b.views b.buffer_size in
    record {
      views = left ∙ kept;
      finished = ap (λ l. b.finished ++ l) (went ∙ ap (map mark) gone);
      counted = omega (
        arith,
        remove_views-size test mark b.views b.buffer_size (omega arith) small,
        ap (λ l. length (joined l)) kept,
      );
    }

module _ (b : SendDataBuffer) (offset : ℕ) (half : 2 * b.window_size < max_index)
    (index : offset ≤ max_index) (near : All (IsNear b.window_size offset) b.views)
    (count : IsCounted b) where
  -- Where the window is below half the index range, the buffer counts its bytes, and every action has
  -- data that fits the window, does not wrap and ends within a window of the offset, `Confirm` removes
  -- exactly the actions all of whose bytes stand before the offset, marked as confirmed, keeps
  -- the others in their order, and counts their bytes.
  pub confirm_lem :
      Released sent_confirmed
        (picked (ends_before offset) b.views)
        (others (ends_before offset) b.views)
        b
        (confirm b offset)
  unfolding confirm
  confirm_lem =
      remove_actions-Released _ _ sent_confirmed b
        (All-before b.window_size offset half index b.views near) count

  -- Where the window is below half the index range, the buffer counts its bytes, and every action has
  -- data that fits the window, does not wrap and ends within a window of the offset, `Reject` removes
  -- exactly the actions that start at the offset or before it, marked as failed, keeps the others
  -- in their order, and counts their bytes.
  pub reject_lem :
      Released mark_failed
        (picked (starts_by offset) b.views)
        (others (starts_by offset) b.views)
        b
        (reject b offset)
  unfolding reject
  reject_lem =
      remove_actions-Released _ _ mark_failed b
        (All-reached b.window_size offset half index b.views near) count

  -- Where the window is below half the index range, the buffer counts its bytes, and every action has
  -- data that fits the window, does not wrap and ends within a window of the offset, `Stop` removes
  -- exactly the actions that start at the offset or before it, marked as stopped, keeps the others
  -- in their order, and counts their bytes.
  pub stop_lem :
      Released mark_stopped
        (picked (starts_by offset) b.views)
        (others (starts_by offset) b.views)
        b
        (stop b offset)
  unfolding stop
  stop_lem =
      remove_actions-Released _ _ mark_stopped b
        (All-reached b.window_size offset half index b.views near) count
