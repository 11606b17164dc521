-- ===== src/SafeStream/Messages/RoundTrip.antt =====
-- The messages of safe_stream_api.h are loaded from their bytes.
use aether_client_cpp_new.Prelude.{
  ℕ, ◌^◌, ◌<◌, ◌≡◌, refl, ap, ap₂, subst, List, ◌++◌, append_assoc, length, some, arith,
}
use aether_client_cpp_new.MStream.{VectorReader, to_bytes}
use aether_client_cpp_new.MStream.Ahead.{Ahead, Ahead-advance, Found-bytes, Found-uint}
use aether_client_cpp_new.MStream.Containers.{value_or}
use aether_client_cpp_new.Packed.{limit, serialize}
use aether_client_cpp_new.Packed.Ranges.{packed_round_trip}
use aether_client_cpp_new.SafeStream.Messages.{
  Message, close, request_report, put_report, confirm, request_repeat, send, repeat, code_of, save,
  save_data, load_u16, load_data, load_offset, load_send, load_repeat, loaded, load_factory,
}

-- the fields of a message fit their types
abbrev pub IsValid : Message → Type 0
IsValid close = Unit
IsValid request_report = Unit
IsValid (put_report offset) = offset < 256 ^ 2
IsValid (confirm offset) = offset < 256 ^ 2
IsValid (request_repeat offset) = offset < 256 ^ 2
IsValid (send offset bytes) = (offset < 256 ^ 2) × (length bytes < (limit 1 250 3).upper)
IsValid (repeat count offset bytes) =
    (count < 256 ^ 2) × ((offset < 256 ^ 2) × (length bytes < (limit 1 250 3).upper))

-- a part of a message was read
record Part {A : Type 0} (v : A) (rest : List ℕ) (out : A × VectorReader) : Type 0 where
  value : out.0 ≡ v
  ahead : Ahead out.1 rest

Part-u16 :
    (old v : ℕ) (r : VectorReader) (rest : List ℕ)
    → v < 256 ^ 2
    → Ahead r (to_bytes 2 v ++ rest)
    → Part v rest (load_u16 old r)
unfolding load_u16 value_or
Part-u16 old v r rest h a =
    let found = Found-uint 2 r v rest (omega arith) h a in
    record { value = ap (value_or old) found.value; ahead = found.ahead }

Part-data :
    (bytes : List ℕ) (r : VectorReader) (rest : List ℕ)
    → length bytes < (limit 1 250 3).upper
    → Ahead r (save_data bytes ++ rest)
    → Part bytes rest (load_data r)
unfolding load_data save_data value_or
Part-data bytes r rest h a =
    let a' : Ahead r (serialize 1 250 3 (length bytes) ++ (bytes ++ rest)) =
      subst (λ l. Ahead r l) (append_assoc (serialize 1 250 3 (length bytes)) bytes rest) a in
    let size = packed_round_trip 250 (omega arith) (length bytes) r (bytes ++ rest) h a'.bytes in
    let found = Found-bytes _ bytes rest (Ahead-advance r _ (bytes ++ rest) a') in
    rw size.0 (record { value = ap (value_or _) found.value; ahead = found.ahead })

Ahead-regroup :
    (r : VectorReader) (xs ys rest : List ℕ)
    → Ahead r (xs ++ ys ++ rest)
    → Ahead r (xs ++ (ys ++ rest))
Ahead-regroup r xs ys rest a = subst (λ l. Ahead r l) (append_assoc xs ys rest) a

Part-send :
    (old offset : ℕ) (bytes : List ℕ) (r : VectorReader) (rest : List ℕ)
    → offset < 256 ^ 2
    → length bytes < (limit 1 250 3).upper
    → Ahead r (to_bytes 2 offset ++ (save_data bytes ++ rest))
    → Part (send offset bytes) rest (load_send old r)
unfolding load_send
Part-send old offset bytes r rest h k a =
    let first = Part-u16 old offset r (save_data bytes ++ rest) h a in
    let last = Part-data bytes (load_u16 old r).1 rest k first.ahead in
    record { value = ap₂ send first.value last.value; ahead = last.ahead }

Part-repeat :
    (old count offset : ℕ) (bytes : List ℕ) (r : VectorReader) (rest : List ℕ)
    → count < 256 ^ 2
    → offset < 256 ^ 2
    → length bytes < (limit 1 250 3).upper
    → Ahead r (to_bytes 2 count ++ (to_bytes 2 offset ++ (save_data bytes ++ rest)))
    → Part (repeat count offset bytes) rest (load_repeat old r)
unfolding load_repeat
Part-repeat old count offset bytes r rest h k l a =
    let first = Part-u16 old count r (to_bytes 2 offset ++ (save_data bytes ++ rest)) h a in
    let second = Part-u16 old offset (load_u16 old r).1 (save_data bytes ++ rest) k first.ahead in
    let last = Part-data bytes (load_u16 old (load_u16 old r).1).1 rest l second.ahead in
    record {
      value = λ i. repeat (first.value i) (second.value i) (last.value i);
      ahead = last.ahead;
    }

Part-offset :
    (message : ℕ → Message) (old offset : ℕ) (r : VectorReader) (rest : List ℕ)
    → offset < 256 ^ 2
    → Ahead r (to_bytes 2 offset ++ rest)
    → Part (message offset) rest (load_offset message old r)
unfolding load_offset
Part-offset message old offset r rest h a =
    let part = Part-u16 old offset r rest h a in
    record { value = ap message part.value; ahead = part.ahead }

-- A message whose fields fit their types is loaded by its code from what it saved, whatever stood in
-- the fields before, and the reader stands behind it.
pub load_factory-save :
    (m : Message) (old : ℕ) (r : VectorReader) (rest : List ℕ)
    → IsValid m
    → Ahead r (save m ++ rest)
    → ((load_factory (code_of m) old r).0 ≡ some m) × Ahead (load_factory (code_of m) old r).1 rest
unfolding load_factory code_of save loaded
load_factory-save close old r rest v a = (refl, a)
load_factory-save request_report old r rest v a = (refl, a)
load_factory-save (put_report offset) old r rest v a =
    let part = Part-offset put_report old offset r rest v a in (ap some part.value, part.ahead)
load_factory-save (confirm offset) old r rest v a =
    let part = Part-offset confirm old offset r rest v a in (ap some part.value, part.ahead)
load_factory-save (request_repeat offset) old r rest v a =
    let part = Part-offset request_repeat old offset r rest v a in (ap some part.value, part.ahead)
load_factory-save (send offset bytes) old r rest (h, k) a =
    let part =
      Part-send old offset bytes r rest h k
        (Ahead-regroup r (to_bytes 2 offset) (save_data bytes) rest a) in
    (ap some part.value, part.ahead)
load_factory-save (repeat count offset bytes) old r rest (h, (k, l)) a =
    let tail = append_assoc (to_bytes 2 offset) (save_data bytes) rest in
    let a' : Ahead r (to_bytes 2 count ++ (to_bytes 2 offset ++ (save_data bytes ++ rest))) =
      subst (λ t. Ahead r (to_bytes 2 count ++ t)) tail
        (Ahead-regroup r (to_bytes 2 count) (to_bytes 2 offset ++ save_data bytes) rest a) in
    let part = Part-repeat old count offset bytes r rest h k l a' in
    (ap some part.value, part.ahead)
