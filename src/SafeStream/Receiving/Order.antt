-- ===== src/SafeStream/Receiving/Order.antt =====
-- The receiver of safe_stream_receiving.cpp hands on the sender's bytes in their order, each once.
-- A stream is a function from positions to bytes; offsets stay below the wrap of the index.
use aether_client_cpp_new.Prelude.{
  ℕ, zero, suc, ◌+◌, ◌≤◌, ◌<◌, ◌≡◌, refl, ap, ◌∙◌, sym, Bool, Option, none, some, List, [], ◌∷◌,
  ◌++◌, arith, ◌&&◌, All, length, take, length-take, length-append, min, ◌==◌, ltb, leb, Bool-cases,
  inl, inr, subst,
}
use aether_client_cpp_new.Ring.{distance}
use aether_client_cpp_new.Ring.Laws.{plus_plain}
use aether_client_cpp_new.SafeStream.Types.{max_index, u16}
use aether_client_cpp_new.SafeStream.Receiving.{ReceivingChunk, insert_chunk, chunk_end, join_chain}

-- the bytes of a stream from a position on
abbrev pub slice : (ℕ → ℕ) → ℕ → ℕ → List ℕ
slice stream pos zero = []
slice stream pos (suc n) = stream pos ∷ slice stream (suc pos) n

pub length-slice : (stream : ℕ → ℕ) (pos n : ℕ) → length (slice stream pos n) ≡ n
length-slice stream pos zero = refl
length-slice stream pos (suc n) = ap suc (length-slice stream (suc pos) n)

pub slice-add :
    (stream : ℕ → ℕ) (pos m n : ℕ)
    → slice stream pos (m + n) ≡ slice stream pos m ++ slice stream (pos + m) n
slice-add stream pos zero n =
    let e : 0 + n ≡ n = omega arith in
    let f : pos ≡ pos + 0 = omega arith in ap (slice stream pos) e ∙ ap (λ p. slice stream p n) f
slice-add stream pos (suc m) n =
    let e : suc m + n ≡ suc (m + n) = omega arith in
    let f : suc pos + m ≡ pos + suc m = omega arith in
    ap (slice stream pos) e
    ∙ ap (λ t. stream pos ∷ t)
        (slice-add stream (suc pos) m n ∙ ap (λ p. slice stream (suc pos) m ++ slice stream p n) f)

take-slice :
    (stream : ℕ → ℕ) (pos k n : ℕ) → take k (slice stream pos n) ≡ slice stream pos (min k n)
take-slice stream pos zero n = ap (slice stream pos) {x = 0} {y = min 0 n} (omega arith)
take-slice stream pos (suc k) zero = ap (slice stream pos) {x = 0} {y = min (suc k) 0} (omega arith)
take-slice stream pos (suc k) (suc n) =
    ap (λ t. stream pos ∷ t) (take-slice stream (suc pos) k n)
    ∙ ap (slice stream pos) {x = suc (min k n)} {y = min (suc k) (suc n)} (omega arith)

module _ (stream : ℕ → ℕ) where
  -- a chunk that carries the bytes of the stream at its offset, below the wrap
  pub record Agrees (c : ReceivingChunk) : Type 0 where
    pub carries : c.bytes ≡ slice stream c.offset (length c.bytes)
    pub fits : c.offset + length c.bytes < max_index

  pub chunk_end_plain : (c : ReceivingChunk) → Agrees c → chunk_end c ≡ c.offset + length c.bytes
  unfolding chunk_end
  chunk_end_plain c v =
      let small : u16 (length c.bytes) ≡ length c.bytes = omega arith in
      rw small (plus_plain max_index c.offset (length c.bytes) (omega arith) (omega arith))

  -- the chain from `next` on, joined
  pub record Joined (next : ℕ) (cs : List ReceivingChunk) : Type 0 where
    pub reached : (join_chain next cs).0 ≡ next + length (join_chain next cs).1
    pub joined : (join_chain next cs).1 ≡ slice stream next (length (join_chain next cs).1)
    pub left : All Agrees (join_chain next cs).2
    pub bound : (join_chain next cs).0 ≤ max_index

  pub Joined-append :
      (next : ℕ) (bytes more : List ℕ)
      → bytes ≡ slice stream next (length bytes)
      → more ≡ slice stream (next + length bytes) (length more)
      → bytes ++ more ≡ slice stream next (length (bytes ++ more))
  Joined-append next bytes more hb hm =
      ap (λ t. t ++ more) hb
      ∙ ap (λ t. slice stream next (length bytes) ++ t) hm
      ∙ sym (slice-add stream next (length bytes) (length more))
      ∙ ap (slice stream next) (sym (length-append bytes more))

  pub join_chain-Joined :
      (next : ℕ) (cs : List ReceivingChunk) → All Agrees cs → next ≤ max_index → Joined next cs
  unfolding join_chain
  join_chain-Joined next [] v h = record {
    reached = omega arith;
    joined = refl;
    left = tt;
    bound = h;
  }
  join_chain-Joined next (c ∷ cs) (v, vs) h = elim (Bool-cases (next == c.offset)) [
    | inl e ↦
        let at : next ≡ c.offset = ground arith in
        let end : chunk_end c ≡ next + length c.bytes = omega (arith, chunk_end_plain c v) in
        let ih : Joined (chunk_end c) cs = join_chain-Joined (chunk_end c) cs vs (omega arith) in
        record {
          reached =
              rw e
                (omega (arith, ih.reached, length-append c.bytes (join_chain (chunk_end c) cs).1));
          joined = rw e (
              Joined-append next c.bytes (join_chain (chunk_end c) cs).1 (rw at v.carries) (
                subst
                  (λ p.
                    (join_chain (chunk_end c) cs).1
                    ≡ slice stream p (length (join_chain (chunk_end c) cs).1))
                  end ih.joined));
          left = rw e ih.left;
          bound = rw e ih.bound;
        }
    | inr e ↦ record {
      reached = rw e (omega arith);
      joined = rw e refl;
      left = rw e (v, vs);
      bound = rw e h;
    }
  ]

  Agrees-take :
      (c : ReceivingChunk) (n : ℕ) → Agrees c → Agrees (record c { bytes = take n c.bytes })
  Agrees-take c n v = record {
    carries =
        ap (take n) v.carries
        ∙ take-slice stream c.offset n (length c.bytes)
        ∙ ap (slice stream c.offset) (sym (length-take n c.bytes));
    fits = omega (arith, v.fits, length-take n c.bytes);
  }

  -- what `insert_chunk` leaves, if it leaves anything
  abbrev pub Kept : Option (List ReceivingChunk × Bool) → Type 0
  Kept none = Unit
  Kept (some (cs, placed)) = All Agrees cs

  Kept-skip :
      (c : ReceivingChunk) (o : Option (List ReceivingChunk × Bool))
      → Agrees c
      → Kept o
      → Kept (elim o [ none ↦ none | some (cs, placed) ↦ some (c ∷ cs, placed) ])
  Kept-skip c none v k = tt
  Kept-skip c (some (cs, placed)) v k = (v, k)

  pub insert_chunk-Kept :
      (window : ℕ) (chunk : ReceivingChunk) (cs : List ReceivingChunk)
      → Agrees chunk
      → All Agrees cs
      → Kept (insert_chunk window chunk cs)
  unfolding insert_chunk
  insert_chunk-Kept window chunk [] v vs = (v, tt)
  insert_chunk-Kept window chunk (c ∷ cs) v (w, ws) =
      elim (Bool-cases (leb (distance max_index chunk.offset c.offset) window)) [
        | inl e ↦ elim (Bool-cases (chunk.offset == c.offset)) [
          | inl d ↦ rw (e, d) tt
          | inr d ↦
              elim (Bool-cases (
                ltb 0 (distance max_index c.offset (chunk_end chunk))
                && leb (distance max_index c.offset (chunk_end chunk)) window)) [
                  | inl o ↦
                      rw (e, d, o)
                        (Agrees-take chunk (distance max_index chunk.offset c.offset) v, (w, ws))
                  | inr o ↦ rw (e, d, o) (v, (w, ws))
                ]
        ]
        | inr e ↦
            rw e (
              Kept-skip c (insert_chunk window chunk cs) w (insert_chunk-Kept window chunk cs v ws))
      ]
