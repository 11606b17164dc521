-- ===== src/MStream/Containers.antt =====
-- aether/mstream.h: strings, containers and pairs in a stream. `size_bytes` is the size of the
-- buffer's `size_type`, which is an unsigned integer here.
use aether_client_cpp_new.Prelude.{
  ℕ, zero, suc, Option, none, some, List, [], ◌∷◌, ◌++◌, if◌then◌else◌, length,
}
use aether_client_cpp_new.MStream.{to_bytes, VectorReader, read, read_uint}
use aether_client_cpp_new.MStream.Ahead.{Ahead, Found}

-- What the operators of an element type do: the bytes that `operator<<` writes, what `operator>>`
-- reads, `none` if it leaves its argument alone, and that a valid value is read back.
pub record Codec (A : Type 0) : Type 1 where
  pub encode : A → List ℕ
  pub decode : VectorReader → Option A × VectorReader
  pub IsValid : A → Type 0
  pub decode-encode :
      (r : VectorReader) (v : A) (rest : List ℕ)
      → IsValid v
      → Ahead r (encode v ++ rest)
      → Found v rest (decode r)

-- `operator<<` and `operator>>` of `std::string`
unfoldable pub write_string : ℕ → List ℕ → List ℕ
write_string size_bytes t = to_bytes size_bytes (length t) ++ t

unfoldable pub string_of_size : Option ℕ → VectorReader → Option (List ℕ) × VectorReader
string_of_size none r = (none, r)
string_of_size (some size) r = read r size

unfoldable pub read_string : ℕ → VectorReader → Option (List ℕ) × VectorReader
unfolding string_of_size
read_string size_bytes r = let (size, r') = read_uint size_bytes r in string_of_size size r'

-- a value that was read, or the one that stood there
unfoldable pub value_or : {A : Type 0} → A → Option A → A
value_or old none = old
value_or old (some v) = v

unfoldable pub repeated : {A : Type 0} → ℕ → A → List A
repeated zero v = []
repeated (suc n) v = v ∷ repeated n v

module _ {A : Type 0} (c : Codec A) where
  unfoldable pub write_elements : List A → List ℕ
  write_elements [] = []
  write_elements (v ∷ vs) = c.encode v ++ write_elements vs

  -- `operator<<` of `std::vector`, `std::deque` and `std::list` of elements that are no scalars
  unfoldable pub write_vector : ℕ → List A → List ℕ
  unfolding write_elements
  write_vector size_bytes t = to_bytes size_bytes (length t) ++ write_elements t

  -- The loop over the elements of the resized vector, which are `initial`.
  unfoldable pub read_elements : A → ℕ → VectorReader → List A × VectorReader
  unfolding value_or repeated
  read_elements initial zero r = ([], r)
  read_elements initial (suc n) r =
      let (v, r') = c.decode r in
      let (vs, r'') = read_elements initial n r' in
      if r'.result
      then (value_or initial v ∷ vs, r'')
      else (value_or initial v ∷ repeated n initial, r')

  unfoldable pub elements_of_size : A → Option ℕ → VectorReader → Option (List A) × VectorReader
  unfolding read_elements
  elements_of_size initial none r = (none, r)
  elements_of_size initial (some size) r =
      let (vs, r') = read_elements initial size r in (some vs, r')

  -- `operator>>` of such a vector
  unfoldable pub read_vector : ℕ → A → VectorReader → Option (List A) × VectorReader
  unfolding elements_of_size
  read_vector size_bytes initial r =
      let (size, r') = read_uint size_bytes r in elements_of_size initial size r'

  -- `operator>>` of `std::list`: the elements that were read are appended
  unfoldable pub read_items : ℕ → VectorReader → List A × VectorReader
  read_items zero r = ([], r)
  read_items (suc n) r =
      let (v, r') = c.decode r in
      let (vs, r'') = read_items n r' in
      elim v [ none ↦ ([], r') | some a ↦ (if r'.result then (a ∷ vs, r'') else ([], r')) ]

  unfoldable pub items_of_size : Option ℕ → VectorReader → Option (List A) × VectorReader
  unfolding read_items
  items_of_size none r = (none, r)
  items_of_size (some size) r = let (vs, r') = read_items size r in (some vs, r')

  unfoldable pub read_list : ℕ → VectorReader → Option (List A) × VectorReader
  unfolding items_of_size
  read_list size_bytes r = let (size, r') = read_uint size_bytes r in items_of_size size r'

-- `operator<<` and `operator>>` of `std::pair`: the second is read even if the first was not
unfoldable pub write_pair : {A B : Type 0} → Codec A → Codec B → A × B → List ℕ
write_pair c d (a, b) = c.encode a ++ d.encode b

unfoldable pub pair_of : {A B : Type 0} → A × B → Option A → Option B → A × B
unfolding value_or
pair_of (a, b) x y = (value_or a x, value_or b y)

unfoldable pub read_pair :
    {A B : Type 0} → Codec A → Codec B → A × B → VectorReader → (A × B) × VectorReader
unfolding pair_of
read_pair c d old r =
    let (a, r') = c.decode r in let (b, r'') = d.decode r' in (pair_of old a b, r'')
