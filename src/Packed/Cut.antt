-- ===== src/Packed/Cut.antt =====
-- What packed_int.h reads from bytes that stop too early.
use aether_client_cpp_new.Prelude.{
  ℕ, zero, suc, ◌+◌, ◌-◌, ◌/◌, ◌%◌, ◌^◌, ◌<◌, ◌≡◌, refl, sym, ap, ◌∙◌, subst, arith, true, false,
  none, List, ◌++◌, ltb, length, length-append, length-drop, append_split,
}
use native.Mathlib.Decide.{dec_lt}
use aether_client_cpp_new.MStream.{to_bytes, VectorReader, read, uint_of, read_uint}
use aether_client_cpp_new.MStream.Laws.{advance, length-to_bytes}
use aether_client_cpp_new.MStream.Ahead.{Ahead, Ahead-advance}
use aether_client_cpp_new.Packed.{
  Limit, limit, not_read, next, Read, first_read, low_read, high_read, serialize, deserialize,
}
use aether_client_cpp_new.Packed.RoundTrip.{
  Chain, InDomain, serialize_small, serialize_large, serialize_first, deserialize-classify,
  classify-next,
}

-- nothing was read, and the reader says so
pub record Refused (x : Read) : Type 0 where
  pub res : x.res ≡ not_read
  pub result : x.reader.result ≡ false

-- a read of more bytes than lie ahead
pub read_uint_short :
    (size : ℕ) (r : VectorReader) (bs : List ℕ)
    → Ahead r bs
    → length bs < size
    → read_uint size r ≡ (none, record r { result = false })
unfolding read_uint read uint_of
read_uint_short size r bs a h =
    let left : length r.bytes - r.offset ≡ length bs =
      sym (length-drop r.offset r.bytes) ∙ ap length a.bytes in
    let short : ltb (length r.bytes) (r.offset + size) ≡ true = ground (arith, left, h) in
    rw short refl

high_read-Refused : (prev l : Limit) (x : Read) → Refused x → Refused (high_read prev l x)
unfolding high_read
high_read-Refused prev l x v =
    subst (λ y. Refused (high_read prev l y))
      (λ i. record { res = sym v.res i; value = x.value; reader = x.reader })
      (record { res = refl; result = v.result })

high_read_short :
    (prev l : Limit) (v : ℕ) (r : VectorReader) (bs : List ℕ)
    → Ahead r bs
    → length bs < prev.bytes
    → Refused (high_read prev l (record { res = next; value = v; reader = r }))
unfolding high_read low_read
high_read_short prev l v r bs a h =
    rw (read_uint_short prev.bytes r bs a h) (record { res = refl; result = refl })

module _ (min_bytes max_value : ℕ) where
  -- The bytes of a value without their last ones are refused.
  pub deserialize-Refused :
      (level v : ℕ) (r : VectorReader) (bs more : List ℕ)
      → Chain min_bytes max_value level
      → InDomain min_bytes max_value level v
      → Ahead r bs
      → bs ++ more ≡ serialize min_bytes max_value level v
      → 0 < length more
      → Refused (deserialize min_bytes max_value level r)
  unfolding deserialize first_read
  deserialize-Refused zero v r bs more c d a e h =
      let total = length-append bs more in
      let size = serialize_first min_bytes max_value v in
      rw (read_uint_short min_bytes r bs a (omega (arith, total, size, ap length e, h)))
        (record { res = refl; result = refl })
  deserialize-Refused (suc level) v r bs more (c, s) d a e h =
      elim (dec_lt v (limit min_bytes max_value level).upper) [
        | yes p ↦
            high_read-Refused (limit min_bytes max_value level)
              (limit min_bytes max_value (suc level)) (deserialize min_bytes max_value level r)
              (deserialize-Refused level v r bs more c (omega arith) a
                (e ∙ serialize_small min_bytes max_value level v s p) h)
        | no p ↦
            let prev = limit min_bytes max_value level in
            let high = (v - prev.upper) / 256 ^ prev.bytes + prev.upper in
            let low = to_bytes prev.bytes ((v - prev.upper) % 256 ^ prev.bytes) in
            let front = serialize min_bytes max_value level high in
            let (inside, split) = serialize_large min_bytes max_value level v s d (omega arith) in
            elim (dec_lt (length bs) (length front)) [
              | yes q ↦
                  let (w, whole, tail) =
                    append_split front low bs more (sym (e ∙ split)) (omega arith) in
                  high_read-Refused (limit min_bytes max_value level)
                    (limit min_bytes max_value (suc level))
                    (deserialize min_bytes max_value level r)
                    (deserialize-Refused level high r bs w c inside a (sym whole)
                      (omega (arith, ap length whole, length-append bs w)))
              | no q ↦
                  let (w, whole, tail) = append_split bs more front low (e ∙ split) (omega arith) in
                  let there : Ahead r (front ++ w) = subst (λ l. Ahead r l) whole a in
                  let found =
                    deserialize-classify min_bytes max_value level high r w c inside there.bytes in
                  let size = length-to_bytes prev.bytes ((v - prev.upper) % 256 ^ prev.bytes) in
                  rw (found, classify-next prev.upper high _ (omega arith))
                    (high_read_short prev (limit min_bytes max_value (suc level)) _
                      (advance r (length front)) w (Ahead-advance r front w there)
                      (omega (arith, ap length tail, length-append w more, size, h)))
            ]
      ]
