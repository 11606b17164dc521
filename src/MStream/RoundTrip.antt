-- ===== src/MStream/RoundTrip.antt =====
-- Reading back the containers of aether/mstream.h.
use aether_client_cpp_new.Prelude.{
  ℕ, ◌<◌, ◌^◌, ◌≡◌, refl, ap, ap₂, subst, Bool, true, false, some, List, [], ◌∷◌, ◌++◌,
  append_assoc, if◌then◌else◌, length, All,
}
use mathlib.Core.Bool.{false≢true}
use aether_client_cpp_new.MStream.{to_bytes, VectorReader, read_uint}
use aether_client_cpp_new.MStream.Ahead.{Ahead, Found, Found-uint, Found-bytes}
use aether_client_cpp_new.MStream.Containers.{
  Codec, write_string, read_string, value_or, write_elements, write_vector, read_elements,
  read_vector, read_items, items_of_size, read_list, write_pair, pair_of, read_pair,
}

Ahead-regroup :
    (r : VectorReader) (xs ys rest : List ℕ)
    → Ahead r (xs ++ ys ++ rest)
    → Ahead r (xs ++ (ys ++ rest))
Ahead-regroup r xs ys rest a = subst (λ l. Ahead r l) (append_assoc xs ys rest) a

-- the elements of a vector are read back
record FoundAll {A : Type 0} (vs : List A) (rest : List ℕ) (out : List A × VectorReader)
    : Type 0 where
  value : out.0 ≡ vs
  ahead : Ahead out.1 rest
  result : out.1.result ≡ true

FoundAll-if :
    {A : Type 0} (vs : List A) (rest : List ℕ) (test : Bool) (x y : List A × VectorReader)
    → test ≡ true
    → FoundAll vs rest x
    → FoundAll vs rest (if test then x else y)
FoundAll-if vs rest true x y e f = f
FoundAll-if vs rest false x y e f = absurd (false≢true e)

read_elements-Found :
    {A : Type 0} (c : Codec A) (initial : A) (r : VectorReader) (vs : List A) (rest : List ℕ)
    → r.result ≡ true
    → All c.IsValid vs
    → Ahead r (write_elements c vs ++ rest)
    → FoundAll vs rest (read_elements c initial (length vs) r)
unfolding read_elements write_elements value_or
read_elements-Found c initial r [] rest e v a = record { value = refl; ahead = a; result = e }
read_elements-Found c initial r (x ∷ vs) rest e (v, more) a =
    let first =
      c.decode-encode r x (write_elements c vs ++ rest) v
        (Ahead-regroup r (c.encode x) (write_elements c vs) rest a) in
    let later =
      read_elements-Found c initial (c.decode r).1 vs rest first.result more first.ahead in
    FoundAll-if (x ∷ vs) rest (c.decode r).1.result _ _ first.result (record {
      value = ap₂ ◌∷◌ (ap (value_or initial) first.value) later.value;
      ahead = later.ahead;
      result = later.result;
    })

-- A string whose length fits the size type is read back from its bytes, and the reader stands behind
-- them.
pub read_string-write_string :
    (size_bytes : ℕ) (r : VectorReader) (t rest : List ℕ)
    → 0 < size_bytes
    → length t < 256 ^ size_bytes
    → Ahead r (write_string size_bytes t ++ rest)
    → Found t rest (read_string size_bytes r)
unfolding read_string write_string
read_string-write_string size_bytes r t rest p h a =
    let size =
      Found-uint size_bytes r (length t) (t ++ rest) p h
        (Ahead-regroup r (to_bytes size_bytes (length t)) t rest a) in
    rw size.value (Found-bytes (read_uint size_bytes r).1 t rest size.ahead)

-- A vector whose length fits the size type, of valid elements of any type that reads its values back,
-- is read back from its bytes, whatever stood in its place, and the reader stands behind them.
pub read_vector-write_vector :
    {A : Type 0} (c : Codec A) (size_bytes : ℕ) (initial : A) (r : VectorReader) (t : List A)
    (rest : List ℕ)
    → 0 < size_bytes
    → length t < 256 ^ size_bytes
    → All c.IsValid t
    → Ahead r (write_vector c size_bytes t ++ rest)
    → Found t rest (read_vector c size_bytes initial r)
unfolding read_vector write_vector
read_vector-write_vector c size_bytes initial r t rest p h v a =
    let size =
      Found-uint size_bytes r (length t) (write_elements c t ++ rest) p h
        (Ahead-regroup r (to_bytes size_bytes (length t)) (write_elements c t) rest a) in
    let found =
      read_elements-Found c initial (read_uint size_bytes r).1 t rest size.result v size.ahead in
    rw size.value
      (record { value = ap some found.value; ahead = found.ahead; result = found.result })

read_items-Found :
    {A : Type 0} (c : Codec A) (r : VectorReader) (vs : List A) (rest : List ℕ)
    → r.result ≡ true
    → All c.IsValid vs
    → Ahead r (write_elements c vs ++ rest)
    → FoundAll vs rest (read_items c (length vs) r)
unfolding read_items write_elements
read_items-Found c r [] rest e v a = record { value = refl; ahead = a; result = e }
read_items-Found c r (x ∷ vs) rest e (v, more) a =
    let first =
      c.decode-encode r x (write_elements c vs ++ rest) v
        (Ahead-regroup r (c.encode x) (write_elements c vs) rest a) in
    let later = read_items-Found c (c.decode r).1 vs rest first.result more first.ahead in
    rw first.value (
      FoundAll-if (x ∷ vs) rest (c.decode r).1.result _ _ first.result (record {
        value = ap (λ l. x ∷ l) later.value;
        ahead = later.ahead;
        result = later.result;
      }))

-- A list whose length fits the size type, of valid elements of any type that reads its values back, is
-- read back from its bytes, and the reader stands behind them.
pub read_list-write_vector :
    {A : Type 0} (c : Codec A) (size_bytes : ℕ) (r : VectorReader) (t : List A) (rest : List ℕ)
    → 0 < size_bytes
    → length t < 256 ^ size_bytes
    → All c.IsValid t
    → Ahead r (write_vector c size_bytes t ++ rest)
    → Found t rest (read_list c size_bytes r)
unfolding read_list items_of_size write_vector
read_list-write_vector c size_bytes r t rest p h v a =
    let size =
      Found-uint size_bytes r (length t) (write_elements c t ++ rest) p h
        (Ahead-regroup r (to_bytes size_bytes (length t)) (write_elements c t) rest a) in
    let found = read_items-Found c (read_uint size_bytes r).1 t rest size.result v size.ahead in
    rw size.value
      (record { value = ap some found.value; ahead = found.ahead; result = found.result })

-- A pair of valid values is read back from its bytes, whatever stood in its place, and the reader
-- stands behind them.
pub read_pair-write_pair :
    {A B : Type 0} (c : Codec A) (d : Codec B) (old : A × B) (r : VectorReader) (v : A × B)
    (rest : List ℕ)
    → c.IsValid v.0
    → d.IsValid v.1
    → Ahead r (write_pair c d v ++ rest)
    → ((read_pair c d old r).0 ≡ v) × Ahead (read_pair c d old r).1 rest
unfolding read_pair write_pair pair_of value_or
read_pair-write_pair c d (x, y) r (a, b) rest p q ahead =
    let first =
      c.decode-encode r a (d.encode b ++ rest) p
        (Ahead-regroup r (c.encode a) (d.encode b) rest ahead) in
    let second = d.decode-encode (c.decode r).1 b rest q first.ahead in
    (ap₂ (λ u w. (u, w)) (ap (value_or x) first.value) (ap (value_or y) second.value), second.ahead)

-- Strings with a size type, as the elements of a container.
abbrev pub string_codec : (size_bytes : ℕ) → 0 < size_bytes → Codec (List ℕ)
string_codec size_bytes p = record {
  encode = write_string size_bytes;
  decode = read_string size_bytes;
  IsValid = λ t. length t < 256 ^ size_bytes;
  decode-encode = λ r t rest h a. read_string-write_string size_bytes r t rest p h a;
}
