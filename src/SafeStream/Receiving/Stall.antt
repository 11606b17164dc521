-- ===== src/SafeStream/Receiving/Stall.antt =====
-- A chunk that starts behind the confirmed offset blocks the receiver of safe_stream_receiving.cpp:
-- `CheckCompletedChains` stops at it, and `AddDataChunk` puts all later data behind it.
use aether_client_cpp_new.Prelude.{
  ℕ, ◌+◌, ◌*◌, ◌≤◌, ◌<◌, ◌≡◌, refl, Option, none, some, List, [], ◌∷◌, ◌++◌, arith, All, ltb, leb,
  Bool-cases, ==_refl, subst, sym, inl, inr, Bool, false,
}
use mathlib.Core.Path.{ap₂}
use native.Mathlib.Decide.{dec_lt}
use aether_client_cpp_new.Ring.{distance}
use aether_client_cpp_new.Ring.Laws.{distance_ahead, distance_behind}
use aether_client_cpp_new.SafeStream.Types.{max_index}
use aether_client_cpp_new.SafeStream.Receiving.{
  Receiving, ReceivingChunk, insert_chunk, placed_chunk, join_chain, add_data_chunk, receive_send,
  receive_repeat, check_completed_chains, check_missed_offset, check_chunk_chains, make_response,
  update,
}
use aether_client_cpp_new.SafeStream.Receiving.Run.{
  Event, on_send, on_repeat, tick, step, run, SameData, check_missed_offset-SameData,
}

-- the list begins with a chunk of that offset
abbrev pub StartsAt : ℕ → List ReceivingChunk → Type 0
StartsAt offset [] = ⊥
StartsAt offset (c ∷ cs) = c.offset ≡ offset

-- The first stored chunk starts behind the confirmed offset, and the window around both is free of
-- the wrap.
pub record IsStalled (start : ℕ) (r : Receiving) : Type 0 where
  pub stored : StartsAt start r.chunks
  pub behind : start < r.last_confirmed_offset
  pub room : r.last_confirmed_offset + r.max_window_size ≤ max_index
  pub near : r.last_confirmed_offset + 2 * r.max_window_size ≤ max_index + start

-- messages carry indices
abbrev pub InBounds : Event → Type 0
InBounds (on_send offset bytes) = offset ≤ max_index
InBounds (on_repeat count offset bytes) = offset ≤ max_index
InBounds (tick now) = Unit

-- what `insert_chunk` leaves, if it leaves anything
abbrev StillStartsAt : ℕ → Option (List ReceivingChunk × Bool) → Type 0
StillStartsAt start none = Unit
StillStartsAt start (some (cs, placed)) = StartsAt start cs

StillStartsAt-skip :
    (start : ℕ) (c : ReceivingChunk) (o : Option (List ReceivingChunk × Bool))
    → c.offset ≡ start
    → StillStartsAt start (elim o [ none ↦ none | some (cs, placed) ↦ some (c ∷ cs, placed) ])
StillStartsAt-skip start c none h = tt
StillStartsAt-skip start c (some (cs, placed)) h = h

insert_chunk-StillStartsAt :
    (window start : ℕ) (chunk : ReceivingChunk) (cs : List ReceivingChunk)
    → window < distance max_index chunk.offset start
    → StartsAt start cs
    → StillStartsAt start (insert_chunk window chunk cs)
unfolding insert_chunk
insert_chunk-StillStartsAt window start chunk [] h s = absurd s
insert_chunk-StillStartsAt window start chunk (c ∷ cs) h s =
    let far : leb (distance max_index chunk.offset c.offset) window ≡ false = ground arith in
    rw far (StillStartsAt-skip start c (insert_chunk window chunk cs) s)

placed_chunk-IsStalled :
    (start : ℕ) (r : Receiving) (offset : ℕ) (o : Option (List ReceivingChunk × Bool))
    → StillStartsAt start o
    → IsStalled start r
    → IsStalled start (placed_chunk r offset o)
unfolding placed_chunk
placed_chunk-IsStalled start r offset none k v = v
placed_chunk-IsStalled start r offset (some (cs, placed)) k v = record {
  stored = k;
  behind = v.behind;
  room = v.room;
  near = v.near;
}

-- An offset that the receiver does not refuse lies further than the window from the blocking chunk.
accepted_far :
    (start offset : ℕ) (r : Receiving)
    → offset ≤ max_index
    → IsStalled start r
    → leb r.max_window_size (distance max_index r.last_confirmed_offset offset) ≡ false
    → r.max_window_size < distance max_index offset start
accepted_far start offset r h v e = elim (dec_lt offset r.last_confirmed_offset) [
  | yes p ↦ ground (arith, distance_behind max_index r.last_confirmed_offset offset)
  | no p ↦ ground (
    arith,
    distance_ahead max_index r.last_confirmed_offset offset,
    distance_behind max_index offset start,
  )
]

receive_send-IsStalled :
    (start : ℕ) (r : Receiving) (offset : ℕ) (bytes : List ℕ)
    → offset ≤ max_index
    → IsStalled start r
    → IsStalled start (receive_send r offset bytes)
unfolding receive_send add_data_chunk
receive_send-IsStalled start r offset bytes h v =
    elim (Bool-cases (leb r.max_window_size (distance max_index r.last_confirmed_offset offset))) [
      | inl e ↦ rw e v
      | inr e ↦ rw e (
          placed_chunk-IsStalled start r offset _
            (insert_chunk-StillStartsAt r.max_window_size start
              (record { offset = offset; bytes = bytes }) r.chunks
              (accepted_far start offset r h v e) v.stored)
            v)
    ]

receive_repeat-IsStalled :
    (start : ℕ) (r : Receiving) (count offset : ℕ) (bytes : List ℕ)
    → offset ≤ max_index
    → IsStalled start r
    → IsStalled start (receive_repeat r offset bytes)
unfolding receive_repeat add_data_chunk
receive_repeat-IsStalled start r count offset bytes h v =
    elim (Bool-cases (leb r.max_window_size (distance max_index r.last_confirmed_offset offset))) [
      | inl e ↦ rw e (record { stored = v.stored; behind = v.behind; room = v.room; near = v.near })
      | inr e ↦ rw e (
          placed_chunk-IsStalled start r offset _
            (insert_chunk-StillStartsAt r.max_window_size start
              (record { offset = offset; bytes = bytes }) r.chunks
              (accepted_far start offset r h v e) v.stored)
            v)
    ]

join_chain-blocked :
    (start next : ℕ) (cs : List ReceivingChunk)
    → StartsAt start cs
    → start < next
    → join_chain next cs ≡ (next, [], cs)
unfolding join_chain
join_chain-blocked start next [] s h = absurd s
join_chain-blocked start next (c ∷ cs) s h = ground arith

check_completed_chains-blocked :
    (start : ℕ) (r : Receiving) (now : ℕ)
    → IsStalled start r
    → SameData r (check_completed_chains r now).1 × ((check_completed_chains r now).2 ≡ [])
unfolding check_completed_chains
check_completed_chains-blocked start r now v =
    elim (Bool-cases (ltb now (r.last_send_confirm_time + r.send_confirm_timeout))) [
      | inl e ↦ rw e ((refl, refl, refl), refl)
      | inr e ↦
          rw
            (
              e,
              join_chain-blocked start r.last_confirmed_offset r.chunks v.stored v.behind,
              ==_refl,
            )
            ((refl, refl, refl), refl)
    ]

SameData-IsStalled :
    (start : ℕ) (r r' : Receiving) → SameData r r' → IsStalled start r → IsStalled start r'
SameData-IsStalled start r r' (c, l, w) v = record {
  stored = subst (StartsAt start) (sym c) v.stored;
  behind = omega arith;
  room = omega arith;
  near = omega arith;
}

-- the update of a stalled receiver hands nothing on, and leaves it stalled
update-IsStalled :
    (start : ℕ) (r : Receiving) (now : ℕ)
    → IsStalled start r
    → IsStalled start (update r now).0 × ((update r now).1.received ≡ [])
unfolding update check_chunk_chains make_response
update-IsStalled start r now v =
    let (time, r', joined) = check_completed_chains r now in
    let (same, silent) = check_completed_chains-blocked start r now v in
    let later : SameData r' (check_missed_offset r' now).1 = check_missed_offset-SameData r' now in
    let kept : IsStalled start (check_missed_offset r' now).1 =
      SameData-IsStalled start r' _ later (SameData-IsStalled start r r' same v) in
    elim (Bool-cases (check_missed_offset r' now).1.repeat_count_exceeded) [
      | inl e ↦ rw e (
        record { stored = kept.stored; behind = kept.behind; room = kept.room; near = kept.near },
        silent,
      )
      | inr e ↦ rw e (
        record { stored = kept.stored; behind = kept.behind; room = kept.room; near = kept.near },
        silent,
      )
    ]

step-IsStalled :
    (start : ℕ) (r : Receiving) (e : Event)
    → InBounds e
    → IsStalled start r
    → IsStalled start (step r e).0 × ((step r e).1 ≡ [])
unfolding step
step-IsStalled start r (on_send offset bytes) b v =
    (receive_send-IsStalled start r offset bytes b v, refl)
step-IsStalled start r (on_repeat count offset bytes) b v =
    (receive_repeat-IsStalled start r count offset bytes b v, refl)
step-IsStalled start r (tick now) b v = update-IsStalled start r now v

-- A receiver whose first stored chunk starts behind the confirmed offset, with the window around
-- both free of the wrap, hands nothing on in any run of messages whose offsets are
-- indices, and stays in such a state.
pub run-IsStalled :
    (start : ℕ) (r : Receiving) (es : List Event)
    → All InBounds es
    → IsStalled start r
    → ((run r es).1 ≡ []) × IsStalled start (run r es).0
unfolding run
run-IsStalled start r [] b v = (refl, v)
run-IsStalled start r (e ∷ es) (b, bs) v =
    let (w, silent) = step-IsStalled start r e b v in
    let (rest, last) = run-IsStalled start (step r e).0 es bs w in (ap₂ ◌++◌ silent rest, last)
