-- ===== src/SafeStream/Receiving/Run.antt =====
-- Runs of the receiver of safe_stream_receiving.cpp: messages and updates in any order.
use aether_client_cpp_new.Prelude.{
  ℕ, ◌+◌, ◌≤◌, ◌≡◌, refl, ◌∙◌, Bool, Option, none, some, List, [], ◌∷◌, ◌++◌, arith, All, length,
  length-append, ◌==◌, ltb, leb, if◌then◌else◌, Bool-cases, inl, inr,
}
use aether_client_cpp_new.Ring.{distance}
use aether_client_cpp_new.SafeStream.Types.{max_index, SafeStreamConfig}
use aether_client_cpp_new.SafeStream.Receiving.{
  Receiving, ReceivingChunk, insert_chunk, placed_chunk, join_chain, add_data_chunk, receive_send,
  receive_repeat, check_completed_chains, check_missed_offset, check_chunk_chains, missed_loop,
  add_expected_chunk, chunk_end, make_response, update, create,
}
use aether_client_cpp_new.SafeStream.Receiving.Order.{
  slice, Agrees, Kept, insert_chunk-Kept, Joined, join_chain-Joined, Joined-append,
}

-- what reaches the receiver
pub data Event : Type 0 where
  on_send : ℕ → List ℕ → Event
  on_repeat : ℕ → ℕ → List ℕ → Event
  tick : ℕ → Event

-- The messages `Send` and `Repeat`, and the update at a time, with the bytes that the receive
-- event hands on.
unfoldable pub step : Receiving → Event → Receiving × List ℕ
step r (on_send offset bytes) = (receive_send r offset bytes, [])
step r (on_repeat count offset bytes) = (receive_repeat r offset bytes, [])
step r (tick now) = let (r', out) = update r now in (r', out.received)

unfoldable pub run : Receiving → List Event → Receiving × List ℕ
unfolding step
run r [] = (r, [])
run r (e ∷ es) = let (r', first) = step r e in let (r'', rest) = run r' es in (r'', first ++ rest)

-- the fields that the walk for missed offsets leaves alone
abbrev pub SameData : Receiving → Receiving → Type 0
SameData r r' =
    (r'.chunks ≡ r.chunks)
    × (r'.last_confirmed_offset ≡ r.last_confirmed_offset)
    × (r'.max_window_size ≡ r.max_window_size)

add_expected_chunk-SameData :
    (r : Receiving) (offset : ℕ) → SameData r (add_expected_chunk r offset)
unfolding add_expected_chunk
add_expected_chunk-SameData r offset = ground arith

missed_loop-SameData :
    (next : ℕ) (cs : List ReceivingChunk) (r : Receiving) → SameData r (missed_loop next cs r)
unfolding missed_loop
missed_loop-SameData next [] r = (refl, refl, refl)
missed_loop-SameData next (c ∷ cs) r = ground (
  arith,
  missed_loop-SameData (chunk_end c) cs (if c.offset == next then r else add_expected_chunk r next),
  add_expected_chunk-SameData r next,
)

pub check_missed_offset-SameData :
    (r : Receiving) (now : ℕ) → SameData r (check_missed_offset r now).1
unfolding check_missed_offset
check_missed_offset-SameData r now =
    ground (arith, missed_loop-SameData r.last_confirmed_offset r.chunks r)

module _ (stream : ℕ → ℕ) where
  -- the data of a message are the stream's, below the wrap
  abbrev pub Genuine : Event → Type 0
  Genuine (on_send offset bytes) = Agrees stream (record { offset = offset; bytes = bytes })
  Genuine (on_repeat count offset bytes) = Agrees stream (record { offset = offset; bytes = bytes })
  Genuine (tick now) = Unit

  record Holds (r : Receiving) : Type 0 where
    chunks : All (Agrees stream) r.chunks
    bound : r.last_confirmed_offset ≤ max_index

  -- the bytes handed on by a step or a run are those from the confirmed offset to the new one
  record Advances (r : Receiving) (out : Receiving × List ℕ) : Type 0 where
    holds : Holds out.0
    reached : out.0.last_confirmed_offset ≡ r.last_confirmed_offset + length out.1
    bytes : out.1 ≡ slice stream r.last_confirmed_offset (length out.1)

  placed_chunk-Holds :
      (r : Receiving) (offset : ℕ) (o : Option (List ReceivingChunk × Bool))
      → Kept stream o
      → Holds r
      → Holds (placed_chunk r offset o)
        × ((placed_chunk r offset o).last_confirmed_offset ≡ r.last_confirmed_offset)
  unfolding placed_chunk
  placed_chunk-Holds r offset none k h = (h, refl)
  placed_chunk-Holds r offset (some (cs, placed)) k h =
      (record { chunks = k; bound = h.bound }, refl)

  add_data_chunk-Holds :
      (r : Receiving) (c : ReceivingChunk)
      → Agrees stream c
      → Holds r
      → Holds (add_data_chunk r c)
        × ((add_data_chunk r c).last_confirmed_offset ≡ r.last_confirmed_offset)
  unfolding add_data_chunk
  add_data_chunk-Holds r c v h =
      placed_chunk-Holds r c.offset (insert_chunk r.max_window_size c r.chunks)
        (insert_chunk-Kept stream r.max_window_size c r.chunks v h.chunks) h

  -- a step that hands nothing on
  Advances-silent :
      (r r' : Receiving)
      → Holds r' × (r'.last_confirmed_offset ≡ r.last_confirmed_offset)
      → Advances r (r', [])
  Advances-silent r r' (h, e) = record { holds = h; reached = omega arith; bytes = refl }

  receive_send-Advances :
      (r : Receiving) (offset : ℕ) (bytes : List ℕ)
      → Agrees stream (record { offset = offset; bytes = bytes })
      → Holds r
      → Advances r (receive_send r offset bytes, [])
  unfolding receive_send
  receive_send-Advances r offset bytes v h =
      elim (Bool-cases
        (leb r.max_window_size (distance max_index r.last_confirmed_offset offset))) [
          | inl e ↦ rw e (Advances-silent r r (h, refl))
          | inr e ↦ rw e (Advances-silent r _ (add_data_chunk-Holds r _ v h))
        ]

  receive_repeat-Advances :
      (r : Receiving) (offset : ℕ) (bytes : List ℕ)
      → Agrees stream (record { offset = offset; bytes = bytes })
      → Holds r
      → Advances r (receive_repeat r offset bytes, [])
  unfolding receive_repeat
  receive_repeat-Advances r offset bytes v h =
      elim (Bool-cases
        (leb r.max_window_size (distance max_index r.last_confirmed_offset offset))) [
          | inl e ↦ rw e (Advances-silent r _ (record { chunks = h.chunks; bound = h.bound }, refl))
          | inr e ↦ rw e (Advances-silent r _ (add_data_chunk-Holds r _ v h))
        ]

  check_completed_chains-Advances :
      (r : Receiving) (now : ℕ)
      → Holds r
      → let (time, r', joined) = check_completed_chains r now in Advances r (r', joined)
  unfolding check_completed_chains
  check_completed_chains-Advances r now h =
      let j : Joined stream r.last_confirmed_offset r.chunks =
        join_chain-Joined stream r.last_confirmed_offset r.chunks h.chunks h.bound in
      elim (Bool-cases (ltb now (r.last_send_confirm_time + r.send_confirm_timeout))) [
        | inl e ↦ rw e (Advances-silent r r (h, refl))
        | inr e ↦
            elim (Bool-cases
              ((join_chain r.last_confirmed_offset r.chunks).0 == r.last_confirmed_offset)) [
                | inl same ↦
                    rw (e, same)
                      (record {
                        holds = record { chunks = j.left; bound = h.bound };
                        reached = ground (arith, j.reached);
                        bytes = j.joined;
                      })
                | inr other ↦
                    rw (e, other)
                      (record {
                        holds = record { chunks = j.left; bound = j.bound };
                        reached = j.reached;
                        bytes = j.joined;
                      })
              ]
      ]

  Advances-SameData :
      (r r' r'' : Receiving) (bytes : List ℕ)
      → SameData r' r''
      → Advances r (r', bytes)
      → Advances r (r'', bytes)
  Advances-SameData r r' r'' bytes (c, l, w) a = record {
    holds = record { chunks = rw c a.holds.chunks; bound = rw l a.holds.bound };
    reached = l ∙ a.reached;
    bytes = a.bytes;
  }

  update-Advances :
      (r : Receiving) (now : ℕ) → Holds r → Advances r ((update r now).0, (update r now).1.received)
  unfolding update check_chunk_chains make_response
  update-Advances r now h =
      let (time, r', joined) = check_completed_chains r now in
      let same : SameData r' (check_missed_offset r' now).1 = check_missed_offset-SameData r' now in
      elim (Bool-cases (check_missed_offset r' now).1.repeat_count_exceeded) [
        | inl e ↦
            rw e (Advances-SameData r r' _ joined same (check_completed_chains-Advances r now h))
        | inr e ↦
            rw e (Advances-SameData r r' _ joined same (check_completed_chains-Advances r now h))
      ]

  step-Advances : (r : Receiving) (e : Event) → Genuine e → Holds r → Advances r (step r e)
  unfolding step
  step-Advances r (on_send offset bytes) g h = receive_send-Advances r offset bytes g h
  step-Advances r (on_repeat count offset bytes) g h = receive_repeat-Advances r offset bytes g h
  step-Advances r (tick now) g h = update-Advances r now h

  Advances-trans :
      (r : Receiving) (a b : Receiving × List ℕ)
      → Advances r a
      → Advances a.0 b
      → Advances r (b.0, a.1 ++ b.1)
  Advances-trans r a b h k = record {
    holds = k.holds;
    reached = omega (arith, h.reached, k.reached, length-append a.1 b.1);
    bytes = Joined-append stream r.last_confirmed_offset a.1 b.1 h.bytes (rw (← h.reached) k.bytes);
  }

  run-Advances :
      (r : Receiving) (es : List Event) → All Genuine es → Holds r → Advances r (run r es)
  unfolding run
  run-Advances r [] g h = Advances-silent r r (h, refl)
  run-Advances r (e ∷ es) (g, gs) h =
      let a : Advances r (step r e) = step-Advances r e g h in
      Advances-trans r (step r e) (run (step r e).0 es) a (run-Advances (step r e).0 es gs a.holds)

  -- A fresh receiver that gets only genuine messages below the wrap, lost, repeated, cut and reordered in any way,
  -- hands on a prefix of the stream, and its confirmed offset is the length of that prefix.
  pub run_in_order :
      (config : SafeStreamConfig) (es : List Event)
      → All Genuine es
      → ((run (create config) es).1 ≡ slice stream 0 (length (run (create config) es).1))
        × ((run (create config) es).0.last_confirmed_offset ≡ length (run (create config) es).1)
  unfolding create
  run_in_order config es g =
      let a : Advances (create config) (run (create config) es) =
        run-Advances (create config) es g (record { chunks = tt; bound = omega arith }) in
      (a.bytes, omega (arith, a.reached))
