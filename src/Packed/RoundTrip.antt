-- ===== src/Packed/RoundTrip.antt =====
-- Reading back a packed integer of packed_int.h.
use aether_client_cpp_new.Prelude.{
  ℕ, zero, suc, ◌+◌, ◌-◌, ◌*◌, ◌/◌, ◌%◌, ◌^◌, ◌≤◌, ◌<◌, ◌≡◌, refl, sym, ap, ◌∙◌, arith, true, false,
  some, List, ◌++◌, leb, length, length-append, append_assoc,
}
use native.Mathlib.Decide.{dec_lt}
use native.Mathlib.Nat.{mod-eq_of_lt, div-add-mod, mod-lt}
use aether_client_cpp_new.MStream.{to_bytes, VectorReader, read_uint}
use aether_client_cpp_new.MStream.Laws.{
  length-to_bytes, unread, advance, unread-advance, read_uint-to_bytes,
}
use aether_client_cpp_new.Packed.{
  Limit, limit, finished, next, classify, high_read, serialize, deserialize,
}

-- What a range needs of the one before it.
pub record IsSound (prev l : Limit) : Type 0 where
  pub some_bytes : 0 < prev.bytes
  pub some_values : 0 < 256 ^ prev.bytes
  pub fits : prev.upper + prev.borrow_count ≤ 256 ^ prev.bytes
  pub grows : prev.upper ≤ l.upper
  pub room : l.upper + l.borrow_count ≤ prev.upper + prev.borrow_count * 256 ^ prev.bytes
  pub wide : l.upper + l.borrow_count ≤ 256 ^ l.bytes

high_quotient : (m size count : ℕ) → 0 < size → m < count * size → m / size < count
high_quotient m size count pos h = grind arith

-- The low half of a value, read behind the high one.
high_read-next :
    (prev l : Limit) (v : ℕ) (r : VectorReader) (rest : List ℕ)
    → IsSound prev l
    → prev.upper ≤ v
    → v < l.upper + l.borrow_count
    → unread r ≡ to_bytes prev.bytes ((v - prev.upper) % 256 ^ prev.bytes) ++ rest
    → high_read prev l
        (record { res = next; value = (v - prev.upper) / 256 ^ prev.bytes; reader = r })
      ≡ classify l.upper v (advance r prev.bytes)
unfolding high_read
high_read-next prev l v r rest s lower higher e =
    let size = 256 ^ prev.bytes in
    let found : read_uint prev.bytes r ≡ (some ((v - prev.upper) % size), advance r prev.bytes) =
      read_uint-to_bytes r prev.bytes ((v - prev.upper) % size) rest s.some_bytes
        (mod-lt (v - prev.upper) s.some_values) e in
    let whole : (v - prev.upper) / size * size + (v - prev.upper) % size + prev.upper ≡ v =
      omega (arith, div-add-mod (v - prev.upper) size) in
    let kept : v % 256 ^ l.bytes ≡ v = mod-eq_of_lt (omega (arith, s.wide)) in
    rw found (rw (whole, kept) refl)

classify_finished :
    (upper v : ℕ) (r : VectorReader)
    → v < upper
    → classify upper v r ≡ record { res = finished; value = v; reader = r }
unfolding classify
classify_finished upper v r h = let e : leb upper v ≡ false = ground arith in rw e

pub classify-next :
    (upper v : ℕ) (r : VectorReader)
    → upper ≤ v
    → classify upper v r ≡ record { res = next; value = v - upper; reader = r }
unfolding classify
classify-next upper v r h = let e : leb upper v ≡ true = ground arith in rw e

high_read_finished :
    (prev l : Limit) (v : ℕ) (r : VectorReader)
    → high_read prev l (record { res = finished; value = v; reader = r })
      ≡ record { res = finished; value = v; reader = r }
unfolding high_read
high_read_finished prev l v r = refl

module _ (min_bytes max_value : ℕ) where
  -- every range up to a level is sound over the one before it
  abbrev pub Chain : ℕ → Type 0
  Chain zero =
      (0 < min_bytes)
      × ((limit min_bytes max_value zero).upper + (limit min_bytes max_value zero).borrow_count
          ≤ 256 ^ min_bytes)
  Chain (suc level) =
      Chain level
      × IsSound (limit min_bytes max_value level) (limit min_bytes max_value (suc level))

  -- the values that a range can be given
  abbrev pub InDomain : ℕ → ℕ → Type 0
  InDomain level v =
      v < (limit min_bytes max_value level).upper + (limit min_bytes max_value level).borrow_count

  deserialize_first :
      (v : ℕ) (r : VectorReader) (rest : List ℕ)
      → Chain zero
      → InDomain zero v
      → unread r ≡ serialize min_bytes max_value zero v ++ rest
      → deserialize min_bytes max_value zero r
        ≡ classify
            (limit min_bytes max_value zero).upper
            v
            (advance r (length (serialize min_bytes max_value zero v)))
  unfolding serialize deserialize
  deserialize_first v r rest c d e =
      rw (read_uint-to_bytes r min_bytes v rest c.0 (omega arith) e, length-to_bytes) refl

  pub serialize_small :
      (level v : ℕ)
      → IsSound (limit min_bytes max_value level) (limit min_bytes max_value (suc level))
      → v < (limit min_bytes max_value level).upper
      → serialize min_bytes max_value (suc level) v ≡ serialize min_bytes max_value level v
  unfolding serialize
  serialize_small level v s h =
      let below : leb (limit min_bytes max_value level).upper v ≡ false = ground arith in
      let kept : v % 256 ^ (limit min_bytes max_value level).bytes ≡ v =
        mod-eq_of_lt (omega (arith, s.fits)) in
      rw (below, kept) refl

  pub serialize_large :
      (level v : ℕ)
      → IsSound (limit min_bytes max_value level) (limit min_bytes max_value (suc level))
      → InDomain (suc level) v
      → (limit min_bytes max_value level).upper ≤ v
      → let prev = limit min_bytes max_value level in
        InDomain level ((v - prev.upper) / 256 ^ prev.bytes + prev.upper)
        × (serialize min_bytes max_value (suc level) v
            ≡ serialize min_bytes max_value level ((v - prev.upper) / 256 ^ prev.bytes + prev.upper)
              ++ to_bytes prev.bytes ((v - prev.upper) % 256 ^ prev.bytes))
  unfolding serialize
  serialize_large level v s d h =
      let prev = limit min_bytes max_value level in
      let above : leb prev.upper v ≡ true = ground arith in
      let quotient : (v - prev.upper) / 256 ^ prev.bytes < prev.borrow_count =
        high_quotient (v - prev.upper) (256 ^ prev.bytes) prev.borrow_count s.some_values
          (omega (arith, s.room, d)) in
      let kept : ((v - prev.upper) / 256 ^ prev.bytes + prev.upper) % 256 ^ prev.bytes
          ≡ (v - prev.upper) / 256 ^ prev.bytes + prev.upper =
        mod-eq_of_lt (omega (arith, s.fits, quotient)) in
      (omega (arith, quotient), rw (above, kept) refl)

  pub deserialize-classify :
      (level v : ℕ) (r : VectorReader) (rest : List ℕ)
      → Chain level
      → InDomain level v
      → unread r ≡ serialize min_bytes max_value level v ++ rest
      → deserialize min_bytes max_value level r
        ≡ classify
            (limit min_bytes max_value level).upper
            v
            (advance r (length (serialize min_bytes max_value level v)))
  unfolding deserialize
  deserialize-classify zero v r rest c d e = deserialize_first v r rest c d e
  deserialize-classify (suc level) v r rest (c, s) d e =
      elim (dec_lt v (limit min_bytes max_value level).upper) [
        | yes p ↦
            let same : serialize min_bytes max_value (suc level) v
                ≡ serialize min_bytes max_value level v =
              serialize_small level v s p in
            let ih : deserialize min_bytes max_value level r
                ≡ classify (limit min_bytes max_value level).upper v
                    (advance r (length (serialize min_bytes max_value level v))) =
              deserialize-classify level v r rest c (omega arith) (rw same at e) in
            rw
              (
                same,
                ih,
                classify_finished (limit min_bytes max_value level).upper v _ p,
                classify_finished (limit min_bytes max_value (suc level)).upper v _
                    (omega (arith, s.grows)),
              )
              (high_read_finished (limit min_bytes max_value level)
                (limit min_bytes max_value (suc level)) v _)
        | no p ↦
            let prev = limit min_bytes max_value level in
            let high = (v - prev.upper) / 256 ^ prev.bytes + prev.upper in
            let low = to_bytes prev.bytes ((v - prev.upper) % 256 ^ prev.bytes) in
            let front = serialize min_bytes max_value level high in
            let (inside, split) = serialize_large level v s d (omega arith) in
            let there : unread r ≡ front ++ (low ++ rest) =
              e ∙ ap (λ l. l ++ rest) split ∙ append_assoc front low rest in
            let ih : deserialize min_bytes max_value level r
                ≡ classify prev.upper high (advance r (length front)) =
              deserialize-classify level high r (low ++ rest) c inside there in
            let quotient : high - prev.upper ≡ (v - prev.upper) / 256 ^ prev.bytes = omega arith in
            let size : r.offset + length (front ++ low) ≡ r.offset + length front + prev.bytes =
              omega (
                arith,
                length-append front low,
                length-to_bytes prev.bytes ((v - prev.upper) % 256 ^ prev.bytes),
              ) in
            rw (split, ih, classify-next prev.upper high _ (omega arith), quotient)
              (high_read-next prev (limit min_bytes max_value (suc level)) v
                  (advance r (length front)) rest s (omega arith) d
                  (unread-advance r front (low ++ rest) there)
                ∙ ap
                    (λ n.
                      classify (limit min_bytes max_value (suc level)).upper v
                        (record r { offset = n; result = true }))
                    (sym size))
      ]

  pub limit_bytes_first : (limit min_bytes max_value zero).bytes ≡ min_bytes
  unfolding limit
  limit_bytes_first = refl

  pub limit_bytes_next :
      (level : ℕ)
      → (limit min_bytes max_value (suc level)).bytes ≡ 2 * (limit min_bytes max_value level).bytes
  unfolding limit
  limit_bytes_next level = refl

  pub serialize_first : (v : ℕ) → length (serialize min_bytes max_value zero v) ≡ min_bytes
  unfolding serialize
  serialize_first v = length-to_bytes min_bytes v

  pub length-serialize-le :
      (level v : ℕ)
      → Chain level
      → InDomain level v
      → length (serialize min_bytes max_value level v) ≤ (limit min_bytes max_value level).bytes
  length-serialize-le zero v c d = omega (arith, serialize_first v, limit_bytes_first)
  length-serialize-le (suc level) v (c, s) d =
      elim (dec_lt v (limit min_bytes max_value level).upper) [
        | yes p ↦
            rw (serialize_small level v s p)
              (omega (arith, length-serialize-le level v c (omega arith), limit_bytes_next level))
        | no p ↦
            let prev = limit min_bytes max_value level in
            let high = (v - prev.upper) / 256 ^ prev.bytes + prev.upper in
            let low = to_bytes prev.bytes ((v - prev.upper) % 256 ^ prev.bytes) in
            let (inside, split) = serialize_large level v s d (omega arith) in
            rw split (
              omega (
                arith,
                length-serialize-le level high c inside,
                length-append (serialize min_bytes max_value level high) low,
                length-to_bytes prev.bytes ((v - prev.upper) % 256 ^ prev.bytes),
                limit_bytes_next level,
              ))
      ]

  -- a value beyond the range before takes all bytes of its own
  pub length-serialize_full :
      (level v : ℕ)
      → Chain (suc level)
      → InDomain (suc level) v
      → (limit min_bytes max_value level).upper ≤ v
      → length (serialize min_bytes max_value (suc level) v)
        ≡ 2 * (limit min_bytes max_value level).bytes
  length-serialize_full zero v (c, s) d h =
      let prev = limit min_bytes max_value zero in
      let high = (v - prev.upper) / 256 ^ prev.bytes + prev.upper in
      let low = to_bytes prev.bytes ((v - prev.upper) % 256 ^ prev.bytes) in
      let (inside, split) = serialize_large zero v s d h in
      rw split (
        omega (
          arith,
          serialize_first high,
          length-append (serialize min_bytes max_value zero high) low,
          length-to_bytes prev.bytes ((v - prev.upper) % 256 ^ prev.bytes),
          limit_bytes_first,
        ))
  length-serialize_full (suc level) v (c, s) d h =
      let prev = limit min_bytes max_value (suc level) in
      let high = (v - prev.upper) / 256 ^ prev.bytes + prev.upper in
      let low = to_bytes prev.bytes ((v - prev.upper) % 256 ^ prev.bytes) in
      let (inside, split) = serialize_large (suc level) v s d h in
      rw split (
        omega (
          arith,
          length-serialize_full level high c inside (omega (arith, c.1.grows)),
          length-append (serialize min_bytes max_value (suc level) high) low,
          length-to_bytes prev.bytes ((v - prev.upper) % 256 ^ prev.bytes),
          limit_bytes_next level,
        ))

  -- A value below the upper bound of its range is read back, whatever follows it, and only its
  -- bytes are passed.
  pub deserialize-serialize :
      (level v : ℕ) (r : VectorReader) (rest : List ℕ)
      → Chain level
      → v < (limit min_bytes max_value level).upper
      → unread r ≡ serialize min_bytes max_value level v ++ rest
      → deserialize min_bytes max_value level r ≡ record {
        res = finished;
        value = v;
        reader = advance r (length (serialize min_bytes max_value level v));
      }
  deserialize-serialize level v r rest c h e =
      deserialize-classify level v r rest c (omega arith) e
      ∙ classify_finished (limit min_bytes max_value level).upper v _ h
