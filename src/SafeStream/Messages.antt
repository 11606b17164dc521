-- ===== src/SafeStream/Messages.antt =====
-- aether/stream_api/safe_stream/safe_stream_api.h and .cpp: the messages of a stream and their bytes.
pub mod RoundTrip
mod Tests
use aether_client_cpp_new.Prelude.{
  ℕ, Bool, Option, none, some, List, [], ◌∷◌, ◌++◌, ◌==◌, if◌then◌else◌, length,
}
use aether_client_cpp_new.MStream.{to_bytes, VectorReader, read, read_uint}
use aether_client_cpp_new.MStream.Containers.{value_or, repeated}
use aether_client_cpp_new.Packed.{serialize, deserialize}

-- the message types: offsets, a repeat count before the offset, and data
pub data Message : Type 0 where
  close request_report : Message
  put_report confirm request_repeat : ℕ → Message
  send : ℕ → List ℕ → Message
  repeat : ℕ → ℕ → List ℕ → Message

-- `kMessageCode`
unfoldable pub code_of : Message → ℕ
code_of close = 2
code_of request_report = 3
code_of (put_report offset) = 4
code_of (confirm offset) = 5
code_of (request_repeat offset) = 6
code_of (send offset bytes) = 7
code_of (repeat count offset bytes) = 8

-- a `DataBuffer` with its `PackedSize`
unfoldable pub save_data : List ℕ → List ℕ
save_data bytes = serialize 1 250 3 (length bytes) ++ bytes

-- the `Serializator` of each message, writing
unfoldable pub save : Message → List ℕ
unfolding save_data
save close = []
save request_report = []
save (put_report offset) = to_bytes 2 offset
save (confirm offset) = to_bytes 2 offset
save (request_repeat offset) = to_bytes 2 offset
save (send offset bytes) = to_bytes 2 offset ++ save_data bytes
save (repeat count offset bytes) = to_bytes 2 count ++ (to_bytes 2 offset ++ save_data bytes)

-- `Pack`
unfoldable pub pack : Message → List ℕ
unfolding code_of save
pack m = to_bytes 1 (code_of m) ++ save m

-- A field that is not read keeps what stood in it, here `old`.
unfoldable pub load_u16 : ℕ → VectorReader → ℕ × VectorReader
unfolding value_or
load_u16 old r = let (v, r') = read_uint 2 r in (value_or old v, r')

unfoldable pub load_data : VectorReader → List ℕ × VectorReader
unfolding value_or repeated
load_data r =
    let size = deserialize 1 250 3 r in
    let (bytes, r') = read size.reader size.value in
    if size.reader.result then (value_or (repeated size.value 0) bytes, r') else ([], size.reader)

unfoldable pub load_send : ℕ → VectorReader → Message × VectorReader
unfolding load_u16 load_data
load_send old r =
    let (offset, r') = load_u16 old r in let (bytes, r'') = load_data r' in (send offset bytes, r'')

unfoldable pub load_repeat : ℕ → VectorReader → Message × VectorReader
unfolding load_u16 load_data
load_repeat old r =
    let (count, r') = load_u16 old r in
    let (offset, r'') = load_u16 old r' in
    let (bytes, r''') = load_data r'' in (repeat count offset bytes, r''')

unfoldable pub load_offset : (ℕ → Message) → ℕ → VectorReader → Message × VectorReader
unfolding load_u16
load_offset message old r = let (offset, r') = load_u16 old r in (message offset, r')

unfoldable pub loaded : Message × VectorReader → Option Message × VectorReader
loaded (m, r) = (some m, r)

-- `LoadFactory`; a code that is not known asserts, or does nothing
unfoldable pub load_factory : ℕ → ℕ → VectorReader → Option Message × VectorReader
unfolding loaded load_offset load_send load_repeat
load_factory message_id old r =
    if message_id == 2
    then (some close, r)
    else (if message_id == 3
        then (some request_report, r)
        else (if message_id == 4
            then loaded (load_offset put_report old r)
            else (if message_id == 5
                then loaded (load_offset confirm old r)
                else (if message_id == 6
                    then loaded (load_offset request_repeat old r)
                    else (if message_id == 7
                        then loaded (load_send old r)
                        else (if message_id == 8
                            then loaded (load_repeat old r)
                            else (none, r)))))))
