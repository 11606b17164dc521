-- ===== src/Collector/Frames.antt =====
-- However a stream of frames is cut, data_packet_collector.cpp collects the same packets.
use aether_client_cpp_new.Prelude.{
  ℕ, zero, suc, ◌≤◌, ◌<◌, ◌≡◌, refl, sym, ap, ◌∙◌, subst, arith, false, List, [], ◌∷◌, ◌++◌,
  append_assoc, append-nil, map, ==_refl, length, drop, All, length-append, length-drop, drop_all,
  drop-length_append, append_split,
}
use mathlib.Core.List.{map-append, foldl, flatten}
use native.Mathlib.Decide.{dec_lt}
use aether_client_cpp_new.Collector.{
  Collector, create, is_packet_complete, write_to_back, round, add_loop, add_data, pop_packet,
}
use aether_client_cpp_new.Collector.Round.{
  header, IsFrame, partial, whole, header_size, wants_packet_back, wants_packet-whole,
  write_to_back_lem, write_to_packet_all, write_to_packet-whole, round_filling, round_short,
  round_open, get_packet_size_short, get_packet_size_whole,
}

-- the bytes of packets, each behind its size
abbrev pub frames : List (List ℕ) → List ℕ
frames [] = []
frames (f ∷ fs) = header f ++ (f ++ frames fs)

-- `AddData` with each piece in turn
abbrev pub feed : Collector → List (List ℕ) → Collector
feed = foldl add_data

-- `PopPacket` some times
abbrev pub popped : ℕ → Collector → List (List ℕ) × Collector
popped zero c = ([], c)
popped (suc n) c =
    let (packet, c') = pop_packet c in let (packets, left) = popped n c' in (packet ∷ packets, left)

-- a size that is not whole
abbrev Short : List ℕ → List (List ℕ) → Type 0
Short temp [] = Unit
Short temp (f ∷ fs) = length temp < length (header f)

-- How far a collector is in the packets `fs`, when `rest` of their stream is still to come: between
-- two packets, or within one.
data Stage (fs : List (List ℕ)) (c : Collector) (rest : List ℕ) : Type 0 where
  idle :
      (done todo : List (List ℕ)) (temp : List ℕ)
      → fs ≡ done ++ todo
      → c ≡ record { packets = map whole done; temp_data_buffer = temp }
      → temp ++ rest ≡ frames todo
      → Short temp todo
      → Stage fs c rest
  filling :
      (done todo : List (List ℕ)) (a b : List ℕ)
      → fs ≡ done ++ ((a ++ b) ∷ todo)
      → c ≡ record { packets = map whole done ++ (partial (a ++ b) a ∷ []); temp_data_buffer = [] }
      → rest ≡ b ++ frames todo
      → 0 < length b
      → Stage fs c rest

-- what a round leaves
record Left (fs : List (List ℕ)) (bytes later : List ℕ) (out : Collector × List ℕ) : Type 0 where
  stage : Stage fs out.0 (out.1 ++ later)
  less : length out.1 < length bytes

module _ (fs : List (List ℕ)) (frames_fit : All IsFrame fs) where
  idle-empty : (todo : List (List ℕ)) → All IsFrame todo → Short [] todo
  idle-empty [] v = tt
  idle-empty (f ∷ todo) (v, vs) = (header_size f v).0

  todo_fit : (done todo : List (List ℕ)) → All IsFrame (done ++ todo) → All IsFrame todo
  todo_fit [] todo v = v
  todo_fit (f ∷ done) todo (v, vs) = todo_fit done todo vs

  -- The packet at the back takes all of the bytes.
  pour_all :
      (done todo : List (List ℕ)) (a bytes w later : List ℕ)
      → fs ≡ done ++ ((a ++ (bytes ++ w)) ∷ todo)
      → w ++ frames todo ≡ later
      → 0 < length w
      → let out = write_to_back (map whole done ++ (partial (a ++ (bytes ++ w)) a ∷ [])) bytes in
        Stage fs (record { packets = out.0; temp_data_buffer = [] }) (drop out.1 bytes ++ later)
        × (out.1 ≡ length bytes)
  pour_all done todo a bytes w later e rest some_w =
      let sizes = length-append a (bytes ++ w) in
      let sizes' = length-append bytes w in
      let written = write_to_packet_all (a ++ (bytes ++ w)) a bytes (omega arith) in
      let back = write_to_back_lem (map whole done) (partial (a ++ (bytes ++ w)) a) bytes in
      let assoc = append_assoc a bytes w in
      let taken = drop_all (length bytes) bytes (omega arith) in
      rw (back, written, taken)
        (
          filling done todo (a ++ bytes) w (e ∙ ap (λ f. done ++ (f ∷ todo)) (sym assoc))
              (ap
                (λ f. record {
                  packets = map whole done ++ (partial f (a ++ bytes) ∷ []);
                  temp_data_buffer = [];
                })
                (sym assoc))
              (sym rest) some_w,
          refl,
        )

  -- It is completed, and the rest is for the packets behind it.
  pour_whole :
      (done todo : List (List ℕ)) (a b w later : List ℕ)
      → All IsFrame todo
      → fs ≡ done ++ ((a ++ b) ∷ todo)
      → w ++ later ≡ frames todo
      → let out = write_to_back (map whole done ++ (partial (a ++ b) a ∷ [])) (b ++ w) in
        Stage fs (record { packets = out.0; temp_data_buffer = [] }) (drop out.1 (b ++ w) ++ later)
        × (out.1 ≡ length b)
  pour_whole done todo a b w later v e rest =
      let written = write_to_packet-whole (a ++ b) a b w refl in
      let back = write_to_back_lem (map whole done) (partial (a ++ b) a) (b ++ w) in
      rw (back, written, drop-length_append b w)
        (
          idle (done ++ ((a ++ b) ∷ [])) todo [] (e ∙ sym (append_assoc done ((a ++ b) ∷ []) todo))
              (ap (λ ps. record { packets = ps; temp_data_buffer = [] })
                (sym (map-append whole done ((a ++ b) ∷ []))))
              rest (idle-empty todo v),
          refl,
        )

  -- bytes poured into the packet at the back
  pour :
      (done todo : List (List ℕ)) (a b bytes later : List ℕ)
      → All IsFrame todo
      → fs ≡ done ++ ((a ++ b) ∷ todo)
      → bytes ++ later ≡ b ++ frames todo
      → 0 < length b
      → let out = write_to_back (map whole done ++ (partial (a ++ b) a ∷ [])) bytes in
        Stage fs (record { packets = out.0; temp_data_buffer = [] }) (drop out.1 bytes ++ later)
        × ((0 < length bytes → 0 < out.1) × (out.1 ≤ length bytes))
  pour done todo a b bytes later v e rest some_b = elim (dec_lt (length bytes) (length b)) [
    | yes p ↦
        let (w, front, back) = append_split b (frames todo) bytes later (sym rest) (omega arith) in
        let some_w : 0 < length w = omega (arith, ap length front, length-append bytes w) in
        let e' = e ∙ ap (λ l. done ++ ((a ++ l) ∷ todo)) front in
        let (stage, used) = pour_all done todo a bytes w later e' back some_w in
        rw front (stage, (λ h. omega (arith, used), omega (arith, used)))
    | no p ↦
        let (w, front, back) = append_split bytes later b (frames todo) rest (omega arith) in
        let (stage, used) = pour_whole done todo a b w later v e back in
        rw front (stage, (λ h. omega (arith, used), omega (arith, used, length-append b w)))
  ]

  round_fill :
      (done todo : List (List ℕ)) (a b bytes later : List ℕ)
      → fs ≡ done ++ ((a ++ b) ∷ todo)
      → bytes ++ later ≡ b ++ frames todo
      → 0 < length b
      → 0 < length bytes
      → Left fs bytes later (
          round
            (record {
              packets = map whole done ++ (partial (a ++ b) a ∷ []);
              temp_data_buffer = [];
            })
            bytes)
  unfolding is_packet_complete
  round_fill done todo a b bytes later e rest some_b some =
      let c : Collector = record {
        packets = map whole done ++ (partial (a ++ b) a ∷ []);
        temp_data_buffer = [];
      } in
      let fit =
        todo_fit (done ++ ((a ++ b) ∷ [])) todo
          (subst (All IsFrame) (e ∙ sym (append_assoc done ((a ++ b) ∷ []) todo)) frames_fit) in
      let w = wants_packet_back (map whole done) (partial (a ++ b) a) ∙ is_open in
      let (stage, (moves, inside)) = pour done todo a b bytes later fit e rest some_b in
      let left = length-drop (write_to_back c.packets bytes).1 bytes in
      rw (round_filling c bytes w)
        (record { stage = stage; less = omega (arith, left, moves some, inside) })
    where
      is_open : is_packet_complete (partial (a ++ b) a) ≡ false
      is_open = ground (arith, length-append a b)

  round_idle :
      (done : List (List ℕ)) (f : List ℕ) (todo : List (List ℕ)) (temp bytes later : List ℕ)
      → fs ≡ done ++ (f ∷ todo)
      → temp ++ (bytes ++ later) ≡ frames (f ∷ todo)
      → length temp < length (header f)
      → 0 < length bytes
      → Left fs bytes later
          (round (record { packets = map whole done; temp_data_buffer = temp }) bytes)
  round_idle done f todo temp bytes later e rest short some =
      elim (dec_lt (length (temp ++ bytes)) (length (header f))) [
        | yes p ↦
            let (w, front, back) =
              append_split (header f) (f ++ frames todo) (temp ++ bytes) later
                (sym rest ∙ sym (append_assoc temp bytes later)) (omega arith) in
            let some_w : 0 < length w =
              omega (arith, ap length front, length-append (temp ++ bytes) w) in
            let size = get_packet_size_short f temp bytes w v.0 (sym front) some_w in
            rw (round_short c bytes (length bytes) (temp ++ bytes) (wants_packet-whole done) size)
              (record {
                stage =
                    idle done (f ∷ todo) (temp ++ bytes) e refl
                      (append_assoc temp bytes later ∙ rest) p;
                less = some;
              })
        | no p ↦
            let (x, front, back) =
              append_split (header f) (f ++ frames todo) temp (bytes ++ later) (sym rest)
                (omega arith) in
            let (d, front', back') =
              append_split bytes later x (f ++ frames todo) (sym back)
                (omega (arith, ap length front, length-append temp x, length-append temp bytes)) in
            let some_x : 0 < length x = omega (arith, ap length front, length-append temp x) in
            let size = get_packet_size_whole f temp x d v.0 (sym front) in
            let (stage, (moves, inside)) = pour done todo [] f d later v.1 e back' v.0.full in
            let opened =
              round_open c (x ++ d) (length f) (length x) [] (wants_packet-whole done) size
                v.0.full in
            let left = length-drop (write_to_back (map whole done ++ (partial f [] ∷ [])) d).1 d in
            rw (front', opened, drop-length_append x d)
              (record {
                stage = stage;
                less = omega (arith, left, inside, length-append x d, some_x);
              })
      ]
    where
      c : Collector
      c = record { packets = map whole done; temp_data_buffer = temp }

      v : All IsFrame (f ∷ todo)
      v = todo_fit done (f ∷ todo) (subst (All IsFrame) e frames_fit)

  round-Stage :
      (c : Collector) (bytes later : List ℕ)
      → Stage fs c (bytes ++ later)
      → 0 < length bytes
      → Left fs bytes later (round c bytes)
  round-Stage c bytes later (filling done todo a b e here rest some_b) some =
      rw here (round_fill done todo a b bytes later e rest some_b some)
  round-Stage c bytes later (idle done [] temp e here rest short) some = absurd (
      omega (arith, ap length rest, length-append temp (bytes ++ later), length-append bytes later))
  round-Stage c bytes later (idle done (f ∷ todo) temp e here rest short) some =
      rw here (round_idle done f todo temp bytes later e rest short some)

  add_loop-Stage :
      (fuel : ℕ) (c : Collector) (bytes later : List ℕ)
      → Stage fs c (bytes ++ later)
      → length bytes ≤ fuel
      → Stage fs (add_loop fuel c bytes) later
  unfolding add_loop
  add_loop-Stage fuel c [] later s enough = s
  add_loop-Stage zero c (x ∷ bytes) later s enough = absurd (omega arith)
  add_loop-Stage (suc fuel) c (x ∷ bytes) later s enough =
      let left = round-Stage c (x ∷ bytes) later s (omega arith) in
      let out = round c (x ∷ bytes) in
      add_loop-Stage fuel out.0 out.1 later left.stage (omega (arith, left.less))

  feed-Stage :
      (c : Collector) (pieces : List (List ℕ))
      → Stage fs c (flatten pieces)
      → Stage fs (feed c pieces) []
  unfolding add_data flatten
  feed-Stage c [] s = s
  feed-Stage c (bytes ∷ pieces) s =
      feed-Stage (add_data c bytes) pieces
        (add_loop-Stage (length bytes) c bytes (flatten pieces) s (omega arith))

  -- Nothing is left, so all packets are whole.
  collected :
      (c : Collector) → Stage fs c [] → c ≡ record { packets = map whole fs; temp_data_buffer = [] }
  collected c (idle done [] [] e here rest short) =
      here
      ∙ ap (λ l. record { packets = map whole l; temp_data_buffer = [] })
          (sym (append-nil done) ∙ sym e)
  collected c (idle done [] (x ∷ temp) e here rest short) =
      absurd (omega (arith, ap length rest, length-append temp []))
  collected c (idle done (f ∷ todo) temp e here rest short) = absurd (
      omega
        (arith, ap length rest, length-append temp [], length-append (header f) (f ++ frames todo)))
  collected c (filling done todo a b e here rest some_b) =
      absurd (omega (arith, ap length rest, length-append b (frames todo)))

  feed-frames :
      (pieces : List (List ℕ))
      → flatten pieces ≡ frames fs
      → feed create pieces ≡ record { packets = map whole fs; temp_data_buffer = [] }
  unfolding create
  feed-frames pieces e =
      let start : Stage fs create (flatten pieces) =
        idle [] fs [] refl refl e (idle-empty fs frames_fit) in
      collected (feed create pieces) (feed-Stage create pieces start)

popped-whole :
    (fs : List (List ℕ))
    → popped (length fs) (record { packets = map whole fs; temp_data_buffer = [] }) ≡ (fs, create)
unfolding create pop_packet is_packet_complete
popped-whole [] = refl
popped-whole (f ∷ fs) = rw (==_refl (length f)) (ap (λ out. (f ∷ out.0, out.1)) (popped-whole fs))

-- A fresh collector is fed the stream of the packets `fs`, each of at least one byte and of a size that
-- fits the prefix, cut into pieces at any places. `PopPacket` then returns these packets, one a call
-- and in order, and leaves the collector as a fresh one.
pub popped-feed :
    (fs pieces : List (List ℕ))
    → All IsFrame fs
    → flatten pieces ≡ frames fs
    → popped (length fs) (feed create pieces) ≡ (fs, create)
popped-feed fs pieces v e = ap (popped (length fs)) (feed-frames fs v pieces e) ∙ popped-whole fs
