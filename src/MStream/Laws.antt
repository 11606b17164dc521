-- ===== src/MStream/Laws.antt =====
-- Reading back what was written.
use aether_client_cpp_new.Prelude.{
  ℕ, zero, suc, ◌+◌, ◌-◌, ◌*◌, ◌/◌, ◌^◌, ◌<◌, ◌≡◌, refl, sym, ap, ◌∙◌, arith, true, false, some,
  List, ◌++◌, ltb, length, take, drop, length-drop, length-append, take-length_append,
  drop-length_append, drop-add, All, subst,
}
use native.Mathlib.Nat.{pow-suc}
use aether_client_cpp_new.MStream.{to_bytes, of_bytes, VectorReader, read, uint_of, read_uint}

pub length-to_bytes : (size v : ℕ) → length (to_bytes size v) ≡ size
unfolding to_bytes
length-to_bytes zero v = refl
length-to_bytes (suc size) v = ap suc (length-to_bytes size (v / 256))

pub to_bytes-small : (size v : ℕ) → All (λ b. b < 256) (to_bytes size v)
unfolding to_bytes
to_bytes-small zero v = tt
to_bytes-small (suc size) v = (omega arith, to_bytes-small size (v / 256))

pub of_bytes-to_bytes : (size v : ℕ) → v < 256 ^ size → of_bytes (to_bytes size v) ≡ v
unfolding to_bytes of_bytes
of_bytes-to_bytes zero v h = omega arith
of_bytes-to_bytes (suc size) v h =
    let p : 256 ^ suc size ≡ 256 ^ size * 256 = pow-suc 256 size in
    omega (arith, of_bytes-to_bytes size (v / 256) (omega (arith, p)))

-- the bytes that a reader has not passed
abbrev pub unread : VectorReader → List ℕ
unread r = drop r.offset r.bytes

-- the reader `n` bytes on
abbrev pub advance : VectorReader → ℕ → VectorReader
advance r n = record r { offset = r.offset + n; result = true }

pub unread-advance :
    (r : VectorReader) (bs rest : List ℕ)
    → unread r ≡ bs ++ rest
    → unread (advance r (length bs)) ≡ rest
unread-advance r bs rest e =
    drop-add r.offset (length bs) r.bytes ∙ ap (drop (length bs)) e ∙ drop-length_append bs rest

-- A read of as many bytes as the reader begins with returns them, and passes them.
pub read_found :
    (r : VectorReader) (bs rest : List ℕ)
    → 0 < length bs
    → unread r ≡ bs ++ rest
    → read r (length bs) ≡ (some bs, advance r (length bs))
unfolding read
read_found r bs rest some_bytes e = rw enough (
    ap (λ l. (some l, advance r (length bs)))
      (ap (take (length bs)) e ∙ take-length_append bs rest))
  where
    size : length r.bytes - r.offset ≡ length bs + length rest
    size = sym (length-drop r.offset r.bytes) ∙ ap length e ∙ length-append bs rest

    enough : ltb (length r.bytes) (r.offset + length bs) ≡ false
    enough = ground (arith, size)

-- An integer that was written with `size` bytes is read back, and its bytes are passed.
pub read_uint-to_bytes :
    (r : VectorReader) (size v : ℕ) (rest : List ℕ)
    → 0 < size
    → v < 256 ^ size
    → unread r ≡ to_bytes size v ++ rest
    → read_uint size r ≡ (some v, advance r size)
unfolding read_uint uint_of
read_uint-to_bytes r size v rest h small e =
    let len : length (to_bytes size v) ≡ size = length-to_bytes size v in
    let found : read r size ≡ (some (to_bytes size v), advance r size) =
      subst (λ n. read r n ≡ (some (to_bytes size v), advance r n)) len
        (read_found r (to_bytes size v) rest (omega arith) e) in
    rw (found, of_bytes-to_bytes size v small) refl
