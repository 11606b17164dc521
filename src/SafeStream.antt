-- ===== src/SafeStream.antt =====
-- aether/stream_api/safe_stream: the reliable stream.
pub mod Types
pub mod Messages
pub mod Chunks
pub mod Action
pub mod Buffer
pub mod Sending
pub mod Receiving
pub mod EndToEnd
mod Tests
