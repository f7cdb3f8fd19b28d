-- ===== src/Protocol/Encoder.antt =====
-- src/protocol/encoder.cpp: one event as an LLEP DATA packet.
use low_latency_event_engine.Base.{
  ℕ, zero, suc, ◌+◌, ◌-◌, List, ◌==◌, ltb, if◌then◌else◌, bit_or, length, set, copy_at, u8, u16,
  ◌<<<◌, add64, Expected, value, unexpected,
}
use low_latency_event_engine.Alignment.{align_up}
use low_latency_event_engine.Event.{EventView}
use low_latency_event_engine.Protocol.Types.{
  EncodeError, magic, version, message_type_value, MessageType, event_frame_header_bytes,
  event_frame_alignment_bytes, data_fixed_bytes, max_single_event_payload_bytes,
}
use low_latency_event_engine.Protocol.ByteIo.{write_u16, write_u32, write_u64}

-- `std::fill(output.data() + at, output.data() + at + count, 0)`.
unfoldable pub fill_zero : List ℕ → ℕ → ℕ → List ℕ
fill_zero output at zero = output
fill_zero output at (suc count) = fill_zero (set output at 0) (at + 1) count

unfoldable pub frame_size_of : ℕ → ℕ
frame_size_of payload_size =
    align_up (add64 payload_size event_frame_header_bytes) event_frame_alignment_bytes

unfoldable pub packet_size_of : ℕ → ℕ
packet_size_of payload_size = add64 (frame_size_of payload_size) data_fixed_bytes

-- The writes of `encode_data`, in their order.
unfoldable pub write_packet : EventView → ℕ → ℕ → List ℕ → List ℕ
write_packet event session_id packet_sequence output =
    let payload_size = length event.payload in
    let packet_size = packet_size_of payload_size in
    let o = set output 0 magic in
    let o = set o 1 (u8 (bit_or (version <<< 4) (message_type_value MessageType.message_data))) in
    let o = write_u16 o 2 (u16 packet_size) in
    let o = write_u32 o 4 session_id in
    let o = write_u64 o 8 packet_sequence in
    let o = write_u64 o 16 event.sequence in
    let o = write_u64 o 24 event.source_timestamp_ns in
    let o = write_u32 o 32 event.stream_id in
    let o = write_u32 o 36 0 in
    let o = write_u16 o 40 (u16 payload_size) in
    let o = copy_at o 42 event.payload in
    fill_zero o (42 + payload_size) (packet_size - (42 + payload_size))

-- `encode_data`: its result, and the output buffer as the call leaves it.
unfoldable pub encode_data : EventView → ℕ → ℕ → List ℕ → Expected ℕ EncodeError × List ℕ
encode_data event session_id packet_sequence output =
    if session_id == 0
    then (unexpected EncodeError.invalid_session_id, output)
    else if packet_sequence == 0
    then (unexpected EncodeError.invalid_packet_sequence, output)
    else if event.sequence == 0
    then (unexpected EncodeError.invalid_event_sequence, output)
    else if ltb max_single_event_payload_bytes (length event.payload)
    then (unexpected EncodeError.payload_too_large, output)
    else if ltb (length output) (packet_size_of (length event.payload))
    then (unexpected EncodeError.output_too_small, output)
    else (
      value (packet_size_of (length event.payload)),
      write_packet event session_id packet_sequence output,
    )
