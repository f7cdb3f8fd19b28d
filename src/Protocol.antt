-- ===== src/Protocol.antt =====
-- The LLEP v1 wire protocol: include/lle/protocol and src/protocol.
pub mod Types
pub mod ByteIo
pub mod Encoder
pub mod Decoder
pub mod Wire
pub mod Encoding
pub mod Decoding
mod Tests
