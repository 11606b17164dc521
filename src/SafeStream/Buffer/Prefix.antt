-- ===== src/SafeStream/Buffer/Prefix.antt =====
-- What the removals of send_data_buffer.cpp leave of actions that cover one range of offsets.
use aether_client_cpp_new.Prelude.{
  ℕ, ◌+◌, ◌-◌, ◌*◌, ◌≤◌, ◌<◌, ◌≡◌, refl, sym, ap, ◌∙◌, arith, Bool, false, List, [], ◌∷◌, ◌++◌,
  length, drop, drop-nil, length-append, Bool-cases, inl, inr, All,
}
use aether_client_cpp_new.SafeStream.Types.{max_index}
use aether_client_cpp_new.SafeStream.Action.{SendingDataAction, get_offset_range}
use aether_client_cpp_new.SafeStream.Types.{in_range}
use aether_client_cpp_new.SafeStream.Buffer.{slice_from}
use aether_client_cpp_new.SafeStream.Buffer.Contiguous.{
  joined, Contiguous, drop_past, get_offset_range-IsPlain,
}
use aether_client_cpp_new.SafeStream.Types.Ranges.{in_range_iff}
use aether_client_cpp_new.SafeStream.Buffer.Release.{IsNear, others, ends_before, starts_by}

-- actions that cover the end of the range that starts at `base`
pub record Rest (window base : ℕ) (views kept : List SendingDataAction) : Type 0 where
  pub from : ℕ
  pub later : base ≤ from
  pub contiguous : Contiguous window from kept
  pub size : from + length (joined kept) ≡ base + length (joined views)
  pub bytes : joined kept ≡ drop (from - base) (joined views)

-- A test that holds of no action from a bound on, and of all that end before it.
module _ (test : SendingDataAction → Bool) (bound : ℕ)
    (late : (a : SendingDataAction) → 0 < length a.bytes → bound ≤ a.offset → test a ≡ false)
    (stays : (a : SendingDataAction) → test a ≡ false → bound ≤ a.offset + length a.bytes)
    (window : ℕ) where
  others-all :
      (base : ℕ) (views : List SendingDataAction)
      → Contiguous window base views
      → bound ≤ base
      → others test views ≡ views
  others-all base [] v h = refl
  others-all base (a ∷ more) (at, full, fits, top, vs) h =
      let stay = late a full (omega (arith, at)) in
      rw (stay, others-all (base + length a.bytes) more vs (omega arith)) refl

  others-Rest :
      (base : ℕ) (views : List SendingDataAction)
      → Contiguous window base views
      → Rest window base views (others test views)
  others-Rest base [] v = record {
    from = base;
    later = omega arith;
    contiguous = tt;
    size = refl;
    bytes = sym (drop-nil (base - base));
  }
  others-Rest base (a ∷ more) (at, full, fits, top, vs) = elim (Bool-cases (test a)) [
    | inl e ↦
        let r = others-Rest (base + length a.bytes) more vs in
        rw e (record {
          from = r.from;
          later = omega (arith, r.later);
          contiguous = r.contiguous;
          size = omega (arith, r.size, length-append a.bytes (joined more));
          bytes = r.bytes ∙ sym (drop_past r.from base a.bytes (joined more) r.later);
        })
    | inr e ↦
        rw (e, others-all (base + length a.bytes) more vs (omega (arith, at, stays a e)))
          (record {
            from = base;
            later = omega arith;
            contiguous = (at, full, fits, top, vs);
            size = refl;
            bytes =
                ap (λ n. drop n (a.bytes ++ joined more)) {x = 0} {y = base - base} (omega arith);
          })
  ]

module _ (window offset base : ℕ) (views : List SendingDataAction)
    (v : Contiguous window base views) where
  pub others-ends_before : Rest window base views (others (ends_before offset) views)
  others-ends_before =
      others-Rest (ends_before offset) offset (λ a full h. ground arith) (λ a e. ground (arith, e))
        window base views v

  pub others-starts_by : Rest window base views (others (starts_by offset) views)
  others-starts_by =
      others-Rest (starts_by offset) (offset + 1) (λ a full h. ground arith)
        (λ a e. ground (arith, e)) window base views v

-- An offset that is in the range, or next to it, is within a window of every action.
pub All-IsNear :
    (window offset base : ℕ) (views : List SendingDataAction)
    → Contiguous window base views
    → base + length (joined views) ≤ offset + window + 1
    → offset ≤ base + window
    → All (IsNear window offset) views
All-IsNear window offset base [] v h k = tt
All-IsNear window offset base (a ∷ more) (at, full, fits, top, vs) h k =
    let total = length-append a.bytes (joined more) in
    (
      record {
        full = full;
        fits = fits;
        top = omega (arith, at, top);
        ahead = omega (arith, at, total);
        behind = omega (arith, at);
      },
      All-IsNear window offset (base + length a.bytes) more vs (omega (arith, total)) (omega arith),
    )

-- Nothing is found at an offset before the range.
pub slice_from_early :
    (window : ℕ) (half : 2 * window < max_index) (base : ℕ) (views : List SendingDataAction)
    (offset max_size : ℕ)
    → Contiguous window base views
    → offset < base
    → (slice_from window views offset max_size).0 ≡ []
unfolding slice_from
slice_from_early window half base [] offset max_size v h = refl
slice_from_early window half base (a ∷ more) offset max_size (at, full, fits, top, vs) h =
    let plain = get_offset_range-IsPlain a window full fits (omega (arith, at)) half in
    elim (Bool-cases (in_range (get_offset_range a window) offset)) [
      | inl e ↦
          let inside = (in_range_iff plain offset (omega (arith, top))).0 e in
          absurd (unfold get_offset_range in omega (arith, at, inside))
      | inr e ↦ rw e (
          slice_from_early window half (base + length a.bytes) more offset max_size vs
            (omega arith))
    ]
