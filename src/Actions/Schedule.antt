-- ===== src/Actions/Schedule.antt =====
-- The time that `ActionProcessor::Update` of action_processor.cpp returns.
use aether_client_cpp_new.Prelude.{
  ℕ, ◌≤◌, ◌<◌, ◌≡◌, refl, ◌∙◌, arith, Option, none, some, List, [], ◌∷◌, All, ◌⊎◌, inl, inr,
}
use mathlib.Core.List.{Memᴰ}
use aether_client_cpp_new.Actions.{
  ActionRegistry, IndexShare, get, select_next_update, update_loop, update, replica,
}

-- the time to come next, of the times that the actions have asked for: the earliest behind `now`, and
-- `now` itself if none is behind it
pub record IsNext (now : ℕ) (times : List ℕ) (next : ℕ) : Type 0 where
  pub not_past : now ≤ next
  pub asked_for : (next ≡ now) ⊎ Memᴰ next times
  pub earliest : All (λ time. now < time → (now < next) × (next ≤ time)) times

-- the same, from the choice among the times before
record Chosen (now old : ℕ) (times : List ℕ) (next : ℕ) : Type 0 where
  not_past : now ≤ next
  among : (next ≡ old) ⊎ Memᴰ next times
  kept : now < old → (now < next) × (next ≤ old)
  earliest : All (λ time. now < time → (now < next) × (next ≤ time)) times

abbrev select_all : ℕ → List ℕ → ℕ → ℕ
select_all now [] old = old
select_all now (time ∷ times) old = select_all now times (select_next_update time old now)

select_next_update_cases :
    (time old now : ℕ)
    → now ≤ old
    → (now ≤ select_next_update time old now)
      × ((select_next_update time old now ≡ old)
          ⊎ ((select_next_update time old now ≡ time) × (now < time)))
      × (now < old
          → (now < select_next_update time old now) × (select_next_update time old now ≤ old))
      × (now < time
          → (now < select_next_update time old now) × (select_next_update time old now ≤ time))
unfolding select_next_update
select_next_update_cases time old now h = ground arith

later_All :
    (now next : ℕ) (times : List ℕ) (old time : ℕ)
    → Chosen now old times next
    → (now < time → (now < old) × (old ≤ time))
    → (now < time → (now < next) × (next ≤ time))
later_All now next times old time c h p = ground (arith, c.kept)

select_all-Chosen :
    (now : ℕ) (times : List ℕ) (old : ℕ)
    → now ≤ old
    → Chosen now old times (select_all now times old)
select_all-Chosen now [] old h = record {
  not_past = h;
  among = inl refl;
  kept = λ p. (p, omega arith);
  earliest = tt;
}
select_all-Chosen now (time ∷ times) old h =
    let (past, from, kept, sooner) = select_next_update_cases time old now h in
    let old' = select_next_update time old now in
    let c = select_all-Chosen now times old' past in
    record {
      not_past = c.not_past;
      among = elim c.among [
        | inl e ↦ elim from [ inl f ↦ inl (e ∙ f) | inr f ↦ inr (Memᴰ.head (e ∙ f.0)) ]
        | inr m ↦ inr (Memᴰ.tail m)
      ];
      kept = later_All now (select_all now times old') times old' old c kept;
      earliest = (later_All now (select_all now times old') times old' time c sooner, c.earliest);
    }

select_all-IsNext : (now : ℕ) (times : List ℕ) → IsNext now times (select_all now times now)
select_all-IsNext now times =
    let c = select_all-Chosen now times now (omega arith) in
    record { not_past = c.not_past; asked_for = c.among; earliest = c.earliest }

module _ {S : Type 0} (update_action : ℕ → ℕ → ActionRegistry × S → (ActionRegistry × S) × ℕ) where
  -- what the actions return that the loop of `Update` comes to
  unfoldable pub times_of : ℕ → List IndexShare → ActionRegistry × S → List ℕ
  times_of now [] state = []
  times_of now (entry ∷ entries) state = elim (get state.0 entry) [
    | none ↦ times_of now entries state
    | some action ↦
        let (state', time) = update_action action now state in time ∷ times_of now entries state'
  ]

  update_loop-select_all :
      (now : ℕ) (entries : List IndexShare) (state : ActionRegistry × S) (old : ℕ)
      → (update_loop update_action now entries state old).1
        ≡ select_all now (times_of now entries state) old
  unfolding update_loop times_of
  update_loop-select_all now [] state old = refl
  update_loop-select_all now (entry ∷ entries) state old =
      by_action (λ later old'. update_loop-select_all now entries later old') (get state.0 entry)
    where
      by_action :
          ((later : ActionRegistry × S) (old' : ℕ)
            → (update_loop update_action now entries later old').1
              ≡ select_all now (times_of now entries later) old')
          → (o : Option ℕ)
          → (elim o as (λ x. (ActionRegistry × S) × ℕ) [
            | none ↦ update_loop update_action now entries state old
            | some action ↦
                let (state', new_time) = update_action action now state in
                update_loop update_action now entries state' (select_next_update new_time old now)
          ]).1
            ≡ select_all now
                (elim o [
                  | none ↦ times_of now entries state
                  | some action ↦
                      let (state', time) = update_action action now state in
                      time ∷ times_of now entries state'
                ])
                old
      by_action rest none = rest state old
      by_action rest (some action) =
          let out = update_action action now state in rest out.0 (select_next_update out.1 old now)

  -- `Update` returns the earliest time behind the current one that an action asks for in this
  -- update, and the current time if no action asks for a later one.
  pub update-IsNext :
      (now : ℕ) (registry : ActionRegistry) (rest : S)
      → let (registry', entries) = replica registry registry.action_list in
        IsNext now
          (times_of now entries (registry', rest))
          (update update_action now (registry, rest)).1
  unfolding update
  update-IsNext now registry rest =
      let (registry', entries) = replica registry registry.action_list in
      rw (update_loop-select_all now entries (registry', rest) now)
        (select_all-IsNext now (times_of now entries (registry', rest)))
