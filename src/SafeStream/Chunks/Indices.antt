-- ===== src/SafeStream/Chunks/Indices.antt =====
-- The offsets of the chunks of sending_chunk_list.cpp stay indices.
use aether_client_cpp_new.Prelude.{
  ℕ, ◌≤◌, ◌≡◌, refl, arith, Bool, true, false, ◌&&◌, Option, none, some, List, [], ◌∷◌, All, ◌==◌,
  if◌then◌else◌, Bool-cases, inl, inr, min,
}
use aether_client_cpp_new.Ring.{plus, minus, clockwise, counter_clockwise}
use aether_client_cpp_new.SafeStream.Types.{max_index, OffsetRange, in_range, before, SendingChunk}
use aether_client_cpp_new.SafeStream.Chunks.{find_chunk, trim, register, remove_up_to}

pub clockwise_le : (value val : ℕ) → value ≤ max_index → clockwise max_index value val ≤ max_index
unfolding clockwise
clockwise_le value val h = ground arith

pub plus_le : (value val : ℕ) → value ≤ max_index → plus max_index value val ≤ max_index
unfolding plus
plus_le value val h = ground (arith, clockwise_le value val)

minus_le : (value val : ℕ) → value ≤ max_index → minus max_index value val ≤ max_index
unfolding minus counter_clockwise
minus_le value val h = ground arith

pub record IsIndexed (c : SendingChunk) : Type 0 where
  pub begins : c.begin_offset ≤ max_index
  pub ends : c.end_offset ≤ max_index

trim-IsIndexed :
    (r : OffsetRange) (found : ℕ) (cs : List SendingChunk) (count : ℕ)
    → r.begin ≤ max_index
    → r.end ≤ max_index
    → All IsIndexed cs
    → All IsIndexed (trim r found cs count).0
unfolding trim
trim-IsIndexed r found [] count hb he v = tt
trim-IsIndexed r found (c ∷ cs) count hb he (v, vs) =
    let after_end = plus_le r.end 1 he in
    let before_begin = minus_le r.begin 1 hb in
    elim (Bool-cases (in_range r c.begin_offset)) [
      | inl e ↦
          let rest = trim-IsIndexed r found cs (min found c.repeat_count) hb he vs in
          elim (Bool-cases (in_range r c.end_offset)) [
            | inl f ↦ rw (e, f) rest
            | inr f ↦ rw (e, f) (record { begins = after_end; ends = v.ends }, rest)
          ]
      | inr e ↦ elim (Bool-cases (in_range r c.end_offset)) [
        | inl f ↦
            let rest = trim-IsIndexed r found cs (min found c.repeat_count) hb he vs in
            rw (e, f) (record { begins = v.begins; ends = before_begin }, rest)
        | inr f ↦ let rest = trim-IsIndexed r found cs count hb he vs in rw (e, f) (v, rest)
      ]
    ]

abbrev Found : Option (SendingChunk × List SendingChunk) → Type 0
Found none = Unit
Found (some (c, cs)) = IsIndexed c × All IsIndexed cs

Found-past :
    (c : SendingChunk) (o : Option (SendingChunk × List SendingChunk))
    → IsIndexed c
    → Found o
    → Found (elim o [ none ↦ none | some (d, rest) ↦ some (d, c ∷ rest) ])
Found-past c none v f = tt
Found-past c (some (d, rest)) v (f, fs) = (f, (v, fs))

find_chunk-Found :
    (test : SendingChunk → Bool) (cs : List SendingChunk)
    → All IsIndexed cs
    → Found (find_chunk test cs)
unfolding find_chunk
find_chunk-Found test [] v = tt
find_chunk-Found test (c ∷ cs) (v, vs) =
    let rest = find_chunk-Found test cs vs in
    either (test c) (some (c, cs)) _ (v, vs) (Found-past c (find_chunk test cs) v rest)
  where
    either :
        (b : Bool) (o o' : Option (SendingChunk × List SendingChunk))
        → Found o
        → Found o'
        → Found (elim b [ true ↦ o | false ↦ o' ])
    either true o o' f g = f
    either false o o' f g = g

-- what `Register` returns for a chunk up to `end`
pub record Registers (end : ℕ) (out : List SendingChunk × SendingChunk) : Type 0 where
  pub others : All IsIndexed out.0
  pub chunk : IsIndexed out.1
  pub reaches : out.1.end_offset ≡ end

pub register-Registers :
    (window begin end now : ℕ) (cs : List SendingChunk)
    → begin ≤ max_index
    → end ≤ max_index
    → All IsIndexed cs
    → Registers end (register window begin end now cs)
unfolding register
register-Registers window begin end now cs hb he v =
    by_found (find_chunk (λ c. in_range r c.begin_offset) cs)
      (find_chunk-Found (λ c. in_range r c.begin_offset) cs v)
  where
    r : OffsetRange
    r = record { begin = begin; end = end; window_size = window }

    by_found :
        (o : Option (SendingChunk × List SendingChunk))
        → Found o
        → Registers end (elim o as (λ x. List SendingChunk × SendingChunk) [
          | none ↦ (
            cs,
            record { begin_offset = begin; end_offset = end; repeat_count = 0; send_time = now },
          )
          | some (c, others) ↦
              if (begin == c.begin_offset) && (end == c.end_offset)
              then (others, record c { send_time = now })
              else (let (rest, count) = trim r c.repeat_count cs c.repeat_count in
                  (
                    rest,
                    record {
                      begin_offset = begin;
                      end_offset = end;
                      repeat_count = count;
                      send_time = now;
                    },
                  ))
        ])
    by_found none f = record {
      others = v;
      chunk = record { begins = hb; ends = he };
      reaches = refl;
    }
    by_found (some (c, others)) (f, fs) =
        elim (Bool-cases ((begin == c.begin_offset) && (end == c.end_offset))) [
          | inl e ↦ rw e (record {
            others = fs;
            chunk = record { begins = f.begins; ends = f.ends };
            reaches = ground (arith, e);
          })
          | inr e ↦ rw e (record {
            others = trim-IsIndexed r c.repeat_count cs c.repeat_count hb he v;
            chunk = record { begins = hb; ends = he };
            reaches = refl;
          })
        ]

pub remove_up_to-IsIndexed :
    (window offset : ℕ) (cs : List SendingChunk)
    → offset ≤ max_index
    → All IsIndexed cs
    → All IsIndexed (remove_up_to window offset cs)
unfolding remove_up_to
remove_up_to-IsIndexed window offset [] h v = tt
remove_up_to-IsIndexed window offset (c ∷ cs) h (v, vs) =
    let rest = remove_up_to-IsIndexed window offset cs h vs in
    let moved : IsIndexed (record c { begin_offset = offset }) = record {
      begins = h;
      ends = v.ends;
    } in
    elim (Bool-cases (before r offset)) [
      | inl e ↦ rw e rest
      | inr e ↦ elim (Bool-cases (in_range r offset)) [
        | inl f ↦ elim (Bool-cases (offset == c.end_offset)) [
          | inl g ↦ rw (e, f, g) rest
          | inr g ↦ rw (e, f, g) (moved, rest)
        ]
        | inr f ↦ rw (e, f) (v, rest)
      ]
    ]
  where
    r : OffsetRange
    r = record { begin = c.begin_offset; end = c.end_offset; window_size = window }
