-- ===== src/SafeStream/Buffer/Marks.antt =====
-- `GetSlice` of the send buffer marks actions, and changes neither their offsets nor their data.
use aether_client_cpp_new.Prelude.{
  ℕ, ◌-◌, ◌≡◌, refl, ap, List, [], ◌∷◌, length, min, Bool-cases, inl, inr, ◌==◌,
}
use aether_client_cpp_new.Ring.{clockwise, distance}
use aether_client_cpp_new.SafeStream.Types.{max_index, u16, sub_size, in_range}
use aether_client_cpp_new.SafeStream.Action.{SendingDataAction, get_offset_range, mark_sending}
use aether_client_cpp_new.SafeStream.Buffer.{slice_loop, slice_from}

-- the offset and the data of each action
abbrev pub shapes : List SendingDataAction → List (ℕ × List ℕ)
shapes [] = []
shapes (a ∷ more) = (a.offset, a.bytes) ∷ shapes more

shapes-slice_loop :
    (views : List SendingDataAction) (remaining current : ℕ)
    → shapes (slice_loop views remaining current).1 ≡ shapes views
unfolding slice_loop mark_sending
shapes-slice_loop [] remaining current = refl
shapes-slice_loop (a ∷ more) remaining current =
    let data_size =
      min (sub_size (length a.bytes) (distance max_index a.offset current)) remaining in
    let same =
      shapes-slice_loop more (remaining - data_size)
        (clockwise max_index current (u16 data_size)) in
    elim (Bool-cases (remaining - data_size == 0)) [
      | inl e ↦ rw e refl
      | inr e ↦ rw e (ap (λ l. (a.offset, a.bytes) ∷ l) same)
    ]

pub shapes-slice_from :
    (window : ℕ) (views : List SendingDataAction) (offset max_size : ℕ)
    → shapes (slice_from window views offset max_size).1 ≡ shapes views
unfolding slice_from
shapes-slice_from window [] offset max_size = refl
shapes-slice_from window (a ∷ more) offset max_size =
    elim (Bool-cases (in_range (get_offset_range a window) offset)) [
      | inl e ↦ rw e (shapes-slice_loop (a ∷ more) max_size offset)
      | inr e ↦
          rw e (ap (λ l. (a.offset, a.bytes) ∷ l) (shapes-slice_from window more offset max_size))
    ]
