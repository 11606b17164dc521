-- ===== src/MStream/Ahead.antt =====
-- What lies ahead of a reader of mstream_buffers.h, and values found there.
use aether_client_cpp_new.Prelude.{
  ℕ, ◌+◌, ◌-◌, ◌≤◌, ◌<◌, ◌^◌, ◌≡◌, refl, sym, ap, ◌∙◌, subst, arith, true, false, Option, some,
  List, ◌++◌, ltb, length, take, length-drop, length-append, take-length_append,
}
use aether_client_cpp_new.MStream.{to_bytes, VectorReader, read, read_uint}
use aether_client_cpp_new.MStream.Laws.{
  unread, advance, unread-advance, read_uint-to_bytes, length-to_bytes,
}

-- the reader stands in its bytes, and these are those from there on
pub record Ahead (r : VectorReader) (bs : List ℕ) : Type 0 where
  pub bytes : unread r ≡ bs
  pub inside : r.offset ≤ length r.bytes

-- a value was read, and what lies ahead then
pub record Found {A : Type 0} (v : A) (rest : List ℕ) (out : Option A × VectorReader) : Type 0 where
  pub value : out.0 ≡ some v
  pub ahead : Ahead out.1 rest
  pub result : out.1.result ≡ true

pub Ahead-advance :
    (r : VectorReader) (bs rest : List ℕ)
    → Ahead r (bs ++ rest)
    → Ahead (advance r (length bs)) rest
Ahead-advance r bs rest a =
    let size : length r.bytes - r.offset ≡ length bs + length rest =
      sym (length-drop r.offset r.bytes) ∙ (ap length a.bytes ∙ length-append bs rest) in
    record { bytes = unread-advance r bs rest a.bytes; inside = omega (arith, size, a.inside) }

pub Found-bytes :
    (r : VectorReader) (bs rest : List ℕ)
    → Ahead r (bs ++ rest)
    → Found bs rest (read r (length bs))
unfolding read
Found-bytes r bs rest a =
    let size : length r.bytes - r.offset ≡ length bs + length rest =
      sym (length-drop r.offset r.bytes) ∙ (ap length a.bytes ∙ length-append bs rest) in
    let enough : ltb (length r.bytes) (r.offset + length bs) ≡ false =
      ground (arith, size, a.inside) in
    rw enough (record {
      value = ap some (ap (take (length bs)) a.bytes ∙ take-length_append bs rest);
      ahead = Ahead-advance r bs rest a;
      result = refl;
    })

pub Found-uint :
    (size : ℕ) (r : VectorReader) (v : ℕ) (rest : List ℕ)
    → 0 < size
    → v < 256 ^ size
    → Ahead r (to_bytes size v ++ rest)
    → Found v rest (read_uint size r)
Found-uint size r v rest p h a = rw (read_uint-to_bytes r size v rest p h a.bytes) (record {
  value = refl;
  ahead =
      subst (λ n. Ahead (advance r n) rest) (length-to_bytes size v)
        (Ahead-advance r (to_bytes size v) rest a);
  result = refl;
})
