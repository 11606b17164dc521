-- ===== src/Collector/Round.antt =====
-- One round of `AddData` in data_packet_collector.cpp, by its cases.
use aether_client_cpp_new.Prelude.{
  ℕ, ◌+◌, ◌-◌, ◌≤◌, ◌<◌, ◌≡◌, refl, sym, ap, ◌∙◌, arith, true, false, List, [], ◌∷◌, ◌++◌,
  append_assoc, map, ltb, ◌==◌, ==_refl, if◌then◌else◌, length, take, drop, length-append, take_all,
  take_append, take-length_append,
}
use aether_client_cpp_new.MStream.{VectorReader}
use aether_client_cpp_new.Packed.{limit, serialize}
use aether_client_cpp_new.Packed.Ranges.{Chain-u64, packed_round_trip, packed_sizes}
use aether_client_cpp_new.Packed.Cut.{deserialize-Refused}
use aether_client_cpp_new.Collector.{
  Packet, Collector, is_packet_complete, wants_packet, get_packet_size, write_to_packet,
  write_to_back, round,
}

-- the bytes of a packet's size
abbrev pub header : List ℕ → List ℕ
header f = serialize 1 250 3 (length f)

-- a packet that is not empty and whose size can be written
pub record IsFrame (f : List ℕ) : Type 0 where
  pub full : 0 < length f
  pub fits : length f < (limit 1 250 3).upper

-- a packet with some of its bytes
abbrev pub partial : List ℕ → List ℕ → Packet
partial f bytes = record { expected_packet_size = length f; bytes = bytes }

abbrev pub whole : List ℕ → Packet
whole f = partial f f

pub header_size : (f : List ℕ) → IsFrame f → (0 < length (header f)) × (length (header f) ≤ 8)
header_size f v = ground (arith, packed_sizes (length f) v.fits)

pub wants_packet_back :
    (ps : List Packet) (p : Packet) → wants_packet (ps ++ (p ∷ [])) ≡ is_packet_complete p
unfolding wants_packet
wants_packet_back [] p = refl
wants_packet_back (q ∷ []) p = refl
wants_packet_back (q ∷ (q' ∷ ps)) p = wants_packet_back (q' ∷ ps) p

pub wants_packet-whole : (fs : List (List ℕ)) → wants_packet (map whole fs) ≡ true
unfolding wants_packet is_packet_complete
wants_packet-whole [] = refl
wants_packet-whole (f ∷ []) = ==_refl (length f)
wants_packet-whole (f ∷ (g ∷ fs)) = wants_packet-whole (g ∷ fs)

pub write_to_back_lem :
    (ps : List Packet) (p : Packet) (bytes : List ℕ)
    → write_to_back (ps ++ (p ∷ [])) bytes
      ≡ (ps ++ ((write_to_packet p bytes).0 ∷ []), (write_to_packet p bytes).1)
unfolding write_to_back
write_to_back_lem [] p bytes = refl
write_to_back_lem (q ∷ []) p bytes = refl
write_to_back_lem (q ∷ (q' ∷ ps)) p bytes =
    ap (λ out. (q ∷ out.0, out.1)) (write_to_back_lem (q' ∷ ps) p bytes)

-- More is wanted of the packet than there is: it takes all.
pub write_to_packet_all :
    (f a bytes : List ℕ)
    → length a + length bytes < length f
    → write_to_packet (partial f a) bytes ≡ (partial f (a ++ bytes), length bytes)
unfolding write_to_packet
write_to_packet_all f a bytes h =
    let less : ltb (length bytes) (length f - length a) ≡ true = ground arith in
    rw (less, take_all (length bytes) bytes (omega arith)) refl

-- There is at least what the packet wants: it is completed.
pub write_to_packet-whole :
    (f a b rest : List ℕ)
    → a ++ b ≡ f
    → write_to_packet (partial f a) (b ++ rest) ≡ (whole f, length b)
unfolding write_to_packet
write_to_packet-whole f a b rest e =
    let size : length f ≡ length a + length b = sym (ap length e) ∙ length-append a b in
    let total = length-append b rest in
    let cap : length f - length a ≡ length b = omega arith in
    let enough : ltb (length (b ++ rest)) (length b) ≡ false = ground (arith, total) in
    rw (cap, enough, take-length_append b rest) (ap (λ l. (partial f l, length b)) e)

module _ (c : Collector) (bytes : List ℕ) where
  pub round_filling :
      wants_packet c.packets ≡ false
      → round c bytes ≡ (
        record c { packets = (write_to_back c.packets bytes).0 },
        drop (write_to_back c.packets bytes).1 bytes,
      )
  unfolding round
  round_filling w = rw w refl

  pub round_short :
      (n : ℕ) (temp : List ℕ)
      → wants_packet c.packets ≡ true
      → get_packet_size c.temp_data_buffer bytes ≡ ((0, n), temp)
      → round c bytes ≡ (record c { temp_data_buffer = temp }, [])
  unfolding round
  round_short n temp w e = rw (w, e) refl

  pub round_open :
      (size ofst : ℕ) (temp : List ℕ)
      → wants_packet c.packets ≡ true
      → get_packet_size c.temp_data_buffer bytes ≡ ((size, ofst), temp)
      → 0 < size
      → let out =
          write_to_back
            (c.packets ++ (record { expected_packet_size = size; bytes = [] } ∷ []))
            (drop ofst bytes) in
        round c bytes
        ≡ (record { packets = out.0; temp_data_buffer = temp }, drop out.1 (drop ofst bytes))
  unfolding round
  round_open size ofst temp w e h =
      let some_size : (size == 0) ≡ false = ground arith in rw (w, e, some_size) refl

-- A size that is cut off is kept for later.
pub get_packet_size_short :
    (f temp bytes more : List ℕ)
    → IsFrame f
    → (temp ++ bytes) ++ more ≡ header f
    → 0 < length more
    → get_packet_size temp bytes ≡ ((0, length bytes), temp ++ bytes)
unfolding get_packet_size
get_packet_size_short f temp bytes more v e h =
    let (some_header, small) = header_size f v in
    let total : length temp + length bytes + length more ≡ length (header f) =
      omega (arith, ap length e, length-append (temp ++ bytes) more, length-append temp bytes) in
    let all : ltb 8 (length bytes) ≡ false = ground (arith, total, small) in
    let r : VectorReader = record { bytes = temp ++ bytes; offset = 0; result = false } in
    let refused =
      deserialize-Refused 1 250 3 (length f) r (temp ++ bytes) more (Chain-u64 250 (omega arith))
        (omega (arith, v.fits)) (record { bytes = refl; inside = omega arith }) e h in
    rw (all, take_all (length bytes) bytes (omega arith), refused.result) refl

-- A whole size is read, whatever follows it.
pub get_packet_size_whole :
    (f temp x bytes : List ℕ)
    → IsFrame f
    → temp ++ x ≡ header f
    → get_packet_size temp (x ++ bytes) ≡ ((length f, length x), [])
unfolding get_packet_size
get_packet_size_whole f temp x bytes v e =
    let (some_header, small) = header_size f v in
    let use_max_size = if ltb 8 (length (x ++ bytes)) then 8 else length (x ++ bytes) in
    let w = take (use_max_size - length x) bytes in
    let total = length-append x bytes in
    let size : length temp + length x ≡ length (header f) =
      omega (arith, ap length e, length-append temp x) in
    let reaches : length x ≤ use_max_size = ground (arith, total, size, small) in
    let used : temp ++ take use_max_size (x ++ bytes) ≡ header f ++ w =
      ap (λ l. temp ++ l)
        (take_append use_max_size x bytes ∙ ap (λ l. l ++ w) (take_all use_max_size x reaches))
      ∙ (sym (append_assoc temp x w) ∙ ap (λ l. l ++ w) e) in
    let r : VectorReader = record { bytes = header f ++ w; offset = 0; result = false } in
    let found = (packed_round_trip 250 (omega arith) (length f) r w v.fits refl).0 in
    let ofst : 0 + length (header f) - length temp ≡ length x = omega (arith, size) in
    rw (used, found) (ap (λ n. ((length f, n), [])) ofst)
