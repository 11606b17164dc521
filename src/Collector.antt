-- ===== src/Collector.antt =====
-- aether/transport/low_level/tcp/data_packet_collector.h and .cpp: packets out of a stream of bytes.
-- A packet is preceded by its size, a `Packed` of one, two, four or eight bytes. The queue stands with
-- its front first. A packet's memory buffer holds what was written to it, up to the expected size.
pub mod Round
pub mod Frames
mod Tests
use aether_client_cpp_new.Prelude.{
  ℕ, zero, suc, ◌+◌, ◌-◌, Bool, true, false, Option, none, some, List, [], ◌∷◌, ◌++◌, ltb, ◌==◌,
  if◌then◌else◌, length, take, drop,
}
use aether_client_cpp_new.MStream.{VectorReader}
use aether_client_cpp_new.Packed.{deserialize}

pub record Packet : Type 0 where
  pub expected_packet_size : ℕ
  pub bytes : List ℕ

-- `StreamDataPacketCollector`
pub record Collector : Type 0 where
  pub packets : List Packet
  pub temp_data_buffer : List ℕ

unfoldable pub create : Collector
create = record { packets = []; temp_data_buffer = [] }

-- `IsPacketComplete`
unfoldable pub is_packet_complete : Packet → Bool
is_packet_complete p = length p.bytes == p.expected_packet_size

-- `packets_.empty() || IsPacketComplete(packets_.back())`
unfoldable pub wants_packet : List Packet → Bool
unfolding is_packet_complete
wants_packet [] = true
wants_packet (p ∷ []) = is_packet_complete p
wants_packet (p ∷ (q ∷ ps)) = wants_packet (q ∷ ps)

-- `GetPacketSize`: the size and the offset behind it, 0 and all bytes if the size is not whole yet.
-- The source asserts that the offset is behind the bytes of earlier calls.
unfoldable pub get_packet_size : List ℕ → List ℕ → (ℕ × ℕ) × List ℕ
get_packet_size temp bytes =
    let use_max_size = if ltb 8 (length bytes) then 8 else length bytes in
    let temp' = temp ++ take use_max_size bytes in
    let packet_size = deserialize 1 250 3 (record { bytes = temp'; offset = 0; result = false }) in
    if packet_size.reader.result
    then ((packet_size.value, packet_size.reader.offset - length temp), [])
    else ((0, length bytes), temp')

-- `WriteToPacket`
unfoldable pub write_to_packet : Packet → List ℕ → Packet × ℕ
write_to_packet p bytes =
    let avail_cap = p.expected_packet_size - length p.bytes in
    let write_size = if ltb (length bytes) avail_cap then length bytes else avail_cap in
    (record p { bytes = p.bytes ++ take write_size bytes }, write_size)

-- The same on the packet at the back of the queue, which is not empty there.
unfoldable pub write_to_back : List Packet → List ℕ → List Packet × ℕ
unfolding write_to_packet
write_to_back [] bytes = ([], 0)
write_to_back (p ∷ []) bytes = let (p', size) = write_to_packet p bytes in (p' ∷ [], size)
write_to_back (p ∷ (q ∷ ps)) bytes =
    let (rest, size) = write_to_back (q ∷ ps) bytes in (p ∷ rest, size)

-- One round of the loop of `AddData`: the collector and the bytes that are left, none when it returns.
unfoldable pub round : Collector → List ℕ → Collector × List ℕ
unfolding wants_packet get_packet_size write_to_back
round c bytes =
    let ((size, ofst), temp) = get_packet_size c.temp_data_buffer bytes in
    let opened = c.packets ++ (record { expected_packet_size = size; bytes = [] } ∷ []) in
    let (filled, written) = write_to_back opened (drop ofst bytes) in
    let (packets, used) = write_to_back c.packets bytes in
    if wants_packet c.packets
    then (if size == 0
        then (record c { temp_data_buffer = temp }, [])
        else (record { packets = filled; temp_data_buffer = temp }, drop written (drop ofst bytes)))
    else (record c { packets = packets }, drop used bytes)

-- The loop, which ends when no bytes are left. Each round takes a byte at least.
unfoldable pub add_loop : ℕ → Collector → List ℕ → Collector
unfolding round
add_loop fuel c [] = c
add_loop zero c (b ∷ bytes) = c
add_loop (suc fuel) c (b ∷ bytes) = let (c', rest) = round c (b ∷ bytes) in add_loop fuel c' rest

-- `AddData`
unfoldable pub add_data : Collector → List ℕ → Collector
unfolding add_loop
add_data c bytes = add_loop (length bytes) c bytes

-- `PopPacket`: the packet's data, empty if no packet is complete
unfoldable pub pop_packet : Collector → List ℕ × Collector
unfolding is_packet_complete
pop_packet c = elim c.packets [
  | [] ↦ ([], c)
  | p ∷ ps ↦ if is_packet_complete p then (p.bytes, record c { packets = ps }) else ([], c)
]
