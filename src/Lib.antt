-- ===== src/Lib.antt =====
-- The client library of aether (aether/): sliding-window streams over lossy links, the ring offsets
-- and integer formats they are built on.
--
-- Parts and files:
--  * Prelude, Prelude.Lists: names of the library passed on, Boolean tests on numbers, `length`,
--    `take` and `drop` over the native numbers.
--  * Ring: `RingIndex` of aether/ring_buffer.h. An index is a number, `max` the template parameter.
--  * StateMachine: aether/state_machine.h. The event of `Set` is its second result.
--  * Nonce: aether/crypto/crypto_nonce.cpp. A nonce is its list of bytes.
--  * MStream: integers through `VectorWriter` and `VectorReader` of aether/mstream_buffers.h and the
--    operators of aether/mstream.h; Containers has strings, vectors, lists and pairs.
--  * Packed: `Limit` and `Packed` of aether/packed_int.h, by the number of steps above the first range.
--  * SafeStream: aether/stream_api/safe_stream. Types is safe_stream_types.h, Chunks is
--    sending_chunk_list.cpp, Action is sending_data_action.cpp, Buffer is send_data_buffer.cpp,
--    Sending is safe_stream_sending.cpp, Receiving is safe_stream_receiving.cpp, Messages is
--    safe_stream_api.h and .cpp. Sending.Genuine, Adding, Slicing, Serving, Stream and Packets follow the
--    sender's stream through its calls; EndToEnd puts sender and receiver together.
--  * BufferGate: aether/stream_api/buffer_gate.cpp; Actions has what happens to one queued write and the
--    runs of the gate.
--  * Address: aether/address.h and address.cpp, with both versions of IP compiled in; a version is
--    any byte.
--  * Collector: aether/transport/low_level/tcp/data_packet_collector.h and .cpp. Round has the cases of
--    one round of `AddData`, Frames the stream of packets and how far a collector is in it.
--  * Crc: aether/crc.h. Bits has the laws of exclusive or, Register the shift register that the table
--    stands for, Detection and Literals what follows.
--  * Actions: aether/actions/action_registry.h and .cpp and action_processor.cpp. Run has the calls of a
--    program that uses shares, Shares and Counting the counters, Schedule the time of the next update.
--    What an action does in its update is a parameter.
--  * FileSystem: aether/port/file_systems/file_system_ram.h and .cpp. Maps has the laws of the ordered
--    maps, Stored and Listing compare the state with plain tables.
--  * Registration: aether/ae_actions/registration/registration.h and .cpp, as a step for each message,
--    event and update, with Types for the state. Run has the runs, Keys and Trust the keys that are used,
--    Servers the connections.
--  * ProofOfWork: aether/proof_of_work.cpp. Passwords counts the passwords by their numbers, Search has
--    what the loops find.
--  * Telemetry: aether/tele/traps/statistics_trap.h and .cpp, the store with its rotation and merge. Trap
--    has the streams of logs and metrics, Tele the objects of aether/tele/collectors.h; Sums, Changes,
--    Logs, Totals and Accounts follow what they record, Merging a merge.
--  * Ptr: `Reset` of aether/obj/ptr.h, with aether/obj/ptr_management.h and .cpp, and the visits of
--    aether/obj/domain_tree.h. Trees has the map of a visit, Visits, Traversal and Reaching the two
--    searches of the graph, Safety, Deletion and Resets what is deleted.
--  * Registry: aether/obj/registry.h and .cpp, and the choice of a factory in aether/obj/domain.cpp. Entries
--    and Classes follow the registered classes, Distance and Chains have what the distances tell, Choice
--    the factory that is chosen.
--
-- How they interact: the application's data goes into `add`, which keeps it as a `SendingDataAction` in
-- the `SendDataBuffer`; `send_data` cuts slices out of it at the offset sent last, registers them in the
-- chunk list and emits a `Packet`. The receiver stores chunks by offset, hands on the chain that starts
-- at its confirmed offset and answers with `Reply` messages, which call `confirmed` and
-- `request_repeat_send` of the sender. The events of a class are results of the step that emits them.
-- `Event` in Sending.Run and Receiving.Run has one constructor for each public call, `run` makes the
-- calls in their order.
--
-- Bounds and fuel: all loops are structural recursion, but these. The fuel of `add_data` is the number
-- of bytes: each round takes at least one. The fuel of `search` in ProofOfWork is 2 to the power of 32,
-- the number of passwords of four bytes. The fuel of the searches in Ptr bounds their depth; one more than
-- the number of objects is enough. The fuel of the distances in Registry bounds the
-- generations; a number above the ranks of all classes is enough. Offsets are 16 bits wide
-- and wrap as `RingIndex` does; theorems that need a stream that does not wrap say so. Sizes and times
-- are unbounded numbers, but the sizes that the code casts to 16 bits are cut here too.
--
-- Not modelled: logging, the trigger of actions, allocation, and the parts of the client that only call
-- the operating system or a third-party library.

pub mod Prelude
pub mod Ring
pub mod StateMachine
pub mod Nonce
pub mod MStream
pub mod Packed
pub mod SafeStream
pub mod BufferGate
pub mod Address
pub mod Collector
pub mod Crc
pub mod Actions
pub mod FileSystem
pub mod Registration
pub mod ProofOfWork
pub mod Telemetry
pub mod Ptr
pub mod Registry
