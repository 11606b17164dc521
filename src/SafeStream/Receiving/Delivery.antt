-- ===== src/SafeStream/Receiving/Delivery.antt =====
-- A receiver of safe_stream_receiving.cpp that gets everything in order hands everything on.
use aether_client_cpp_new.Prelude.{
  ℕ, ◌+◌, ◌*◌, ◌≤◌, ◌<◌, ◌≡◌, refl, sym, ap, ap₂, ◌∙◌, Bool, true, false, some, List, [], ◌∷◌, ◌++◌,
  append_assoc, append-nil, arith, All, All-append, length, length-append, ◌==◌, ==_refl, ltb, leb,
  if◌then◌else◌, Bool-cases, inl, inr,
}
use aether_client_cpp_new.Ring.{distance}
use aether_client_cpp_new.Ring.Laws.{distance_ahead, distance_behind, plus_plain}
use aether_client_cpp_new.SafeStream.Types.{max_index, u16, SafeStreamConfig}
use aether_client_cpp_new.SafeStream.Receiving.{
  Receiving, ReceivingChunk, create, insert_chunk, placed_chunk, add_data_chunk, receive_send,
  chunk_end, join_chain, check_completed_chains, check_missed_offset, check_chunk_chains,
  make_response, update,
}
use aether_client_cpp_new.SafeStream.Receiving.Run.{
  Event, on_send, tick, step, run, SameData, check_missed_offset-SameData,
}

-- pieces of data, all their bytes, the chunks they make from an offset on, and their messages
abbrev pub all_bytes : List (List ℕ) → List ℕ
all_bytes [] = []
all_bytes (p ∷ ps) = p ++ all_bytes ps

abbrev pub chain : ℕ → List (List ℕ) → List ReceivingChunk
chain o [] = []
chain o (p ∷ ps) = record { offset = o; bytes = p } ∷ chain (o + length p) ps

abbrev pub sends : ℕ → List (List ℕ) → List Event
sends o [] = []
sends o (p ∷ ps) = on_send o p ∷ sends (o + length p) ps

insert_chunk_last :
    (window : ℕ) (chunk : ReceivingChunk) (cs : List ReceivingChunk)
    → chunk.offset + window < max_index
    → All (λ c. c.offset < chunk.offset) cs
    → insert_chunk window chunk cs ≡ some (cs ++ (chunk ∷ []), false)
unfolding insert_chunk
insert_chunk_last window chunk [] h v = refl
insert_chunk_last window chunk (c ∷ cs) h (v, vs) =
    let far : leb (distance max_index chunk.offset c.offset) window ≡ false =
      ground (arith, distance_behind max_index chunk.offset c.offset) in
    rw (far, insert_chunk_last window chunk cs h vs) refl

receive_send_last :
    (r : Receiving) (o : ℕ) (p : List ℕ)
    → r.last_confirmed_offset ≡ 0
    → o < r.max_window_size
    → 2 * r.max_window_size < max_index
    → All (λ c. c.offset < o) r.chunks
    → receive_send r o p ≡ record r { chunks = r.chunks ++ (record { offset = o; bytes = p } ∷ []) }
unfolding receive_send add_data_chunk placed_chunk
receive_send_last r o p e h half v =
    let near : leb r.max_window_size (distance max_index r.last_confirmed_offset o) ≡ false =
      ground (arith, distance_ahead max_index r.last_confirmed_offset o) in
    rw
      (
        near,
        insert_chunk_last r.max_window_size (record { offset = o; bytes = p }) r.chunks
            (omega arith) v,
      )
      refl

join_chain-chain :
    (o : ℕ) (ps : List (List ℕ))
    → o + length (all_bytes ps) < max_index
    → join_chain o (chain o ps) ≡ (o + length (all_bytes ps), all_bytes ps, [])
unfolding join_chain chunk_end
join_chain-chain o [] h = ap (λ n. (n, [], [])) {x = o} {y = o + 0} (omega arith)
join_chain-chain o (p ∷ ps) h =
    let total = length-append p (all_bytes ps) in
    let small : u16 (length p) ≡ length p = omega (arith, total, h) in
    let next : chunk_end (record { offset = o; bytes = p }) ≡ o + length p =
      rw small
        (plus_plain max_index o (length p) (omega (arith, total, h)) (omega (arith, total, h))) in
    let later = join_chain-chain (o + length p) ps (omega (arith, total, h)) in
    rw (==_refl o, next, later)
      (ap (λ n. (n, p ++ all_bytes ps, [])) {x = o + length p + length (all_bytes ps)}
        {y = o + length (p ++ all_bytes ps)} (omega (arith, total)))

behind-more :
    (o n : ℕ) (cs : List ReceivingChunk)
    → All (λ c. c.offset < o) cs
    → All (λ c. c.offset < o + n) cs
behind-more o n [] v = tt
behind-more o n (c ∷ cs) (v, vs) = (omega (arith, v), behind-more o n cs vs)

-- Messages that follow each other are stored one behind the other.
run-sends :
    (r : Receiving) (o : ℕ) (ps : List (List ℕ)) (tail : List Event)
    → r.last_confirmed_offset ≡ 0
    → o + length (all_bytes ps) ≤ r.max_window_size
    → 2 * r.max_window_size < max_index
    → All (λ p. 0 < length p) ps
    → All (λ c. c.offset < o) r.chunks
    → run r (sends o ps ++ tail) ≡ run (record r { chunks = r.chunks ++ chain o ps }) tail
unfolding run step
run-sends r o [] tail e h half full v =
    ap (λ cs. run (record r { chunks = cs }) tail) (sym (append-nil r.chunks))
run-sends r o (p ∷ ps) tail e h half (some_bytes, full) v =
    let total = length-append p (all_bytes ps) in
    let c : ReceivingChunk = record { offset = o; bytes = p } in
    let stored = receive_send_last r o p e (omega (arith, total, h, some_bytes)) half v in
    ap (λ s. run s (sends (o + length p) ps ++ tail)) stored
    ∙ (run-sends (record r { chunks = r.chunks ++ (c ∷ []) }) (o + length p) ps tail e
          (omega (arith, total, h)) half full
          (All-append _ r.chunks (c ∷ []) (behind-more o (length p) r.chunks v)
            (omega (arith, some_bytes), tt))
        ∙ ap (λ cs. run (record r { chunks = cs }) tail)
            (append_assoc r.chunks (c ∷ []) (chain (o + length p) ps)))

-- all the pieces handed on, and the confirmed offset behind them
abbrev Delivered : List (List ℕ) → Receiving → List ℕ → Type 0
Delivered ps r received =
    (received ≡ all_bytes ps) × (r.last_confirmed_offset ≡ length (all_bytes ps))

confirmed-if :
    (test : Bool) (x y : Receiving) (n : ℕ)
    → (test ≡ true → x.last_confirmed_offset ≡ n)
    → y.last_confirmed_offset ≡ n
    → (if test then x else y).last_confirmed_offset ≡ n
confirmed-if true x y n h k = h refl
confirmed-if false x y n h k = k

check_completed_chains-Delivered :
    (r : Receiving) (now : ℕ) (ps : List (List ℕ))
    → r.last_confirmed_offset ≡ 0
    → r.chunks ≡ chain 0 ps
    → length (all_bytes ps) < max_index
    → r.last_send_confirm_time + r.send_confirm_timeout ≤ now
    → let (time, r', joined) = check_completed_chains r now in Delivered ps r' joined
unfolding check_completed_chains
check_completed_chains-Delivered r now ps e chunks h due =
    let early : ltb now (r.last_send_confirm_time + r.send_confirm_timeout) ≡ false =
      ground (arith, due) in
    let walk : join_chain r.last_confirmed_offset r.chunks
        ≡ (0 + length (all_bytes ps), all_bytes ps, []) =
      ap₂ join_chain e chunks ∙ join_chain-chain 0 ps (omega (arith, h)) in
    rw (early, walk)
      (
        refl,
        confirmed-if (0 + length (all_bytes ps) == r.last_confirmed_offset) _ _ _
            (λ same. ground (arith, same)) (omega arith),
      )

update-Delivered :
    (r : Receiving) (now : ℕ) (ps : List (List ℕ))
    → (let (time, r', joined) = check_completed_chains r now in Delivered ps r' joined)
    → Delivered ps (update r now).0 (update r now).1.received
unfolding update check_chunk_chains make_response
update-Delivered r now ps d =
    let (time, r', joined) = check_completed_chains r now in
    let same : SameData r' (check_missed_offset r' now).1 = check_missed_offset-SameData r' now in
    let kept = same.1 in
    elim (Bool-cases (check_missed_offset r' now).1.repeat_count_exceeded) [
      | inl e ↦ rw e (d.0, kept ∙ d.1)
      | inr e ↦ rw e (d.0, kept ∙ d.1)
    ]

-- A fresh receiver that gets messages, none of them empty, which follow each other and fit the window, itself below half
-- the indices, and then an update when a confirmation is due, hands all their bytes on, and confirms
-- all of them.
pub run_delivers :
    (config : SafeStreamConfig) (ps : List (List ℕ)) (now : ℕ)
    → All (λ p. 0 < length p) ps
    → length (all_bytes ps) ≤ config.window_size
    → 2 * config.window_size < max_index
    → config.send_confirm_timeout ≤ now
    → let (r, received) = run (create config) (sends 0 ps ++ (tick now ∷ [])) in
      (received ≡ all_bytes ps) × (r.last_confirmed_offset ≡ length (all_bytes ps))
unfolding create run step
run_delivers config ps now full fits half due =
    let stored =
      run-sends (create config) 0 ps (tick now ∷ []) refl (omega (arith, fits)) half full tt in
    let r : Receiving = record (create config) { chunks = chain 0 ps } in
    let d = update-Delivered r now ps (
      check_completed_chains-Delivered r now ps refl refl (omega (arith, fits, half))
        (omega (arith, due))) in
    (
      ap (λ s. s.1) stored ∙ (append-nil (update r now).1.received ∙ d.0),
      ap (λ s. s.0.last_confirmed_offset) stored ∙ d.1,
    )
