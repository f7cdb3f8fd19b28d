-- ===== src/Protocol/Decoding.antt =====
-- Theorems on `decode_data` of src/protocol/decoder.cpp.
mod Reads
mod Spans
mod Frames
mod Datagrams
pub mod RoundTrip
pub mod Soundness
pub mod InBounds
