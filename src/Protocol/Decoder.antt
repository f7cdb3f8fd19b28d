-- ===== src/Protocol/Decoder.antt =====
-- src/protocol/decoder.cpp: one LLEP DATA datagram as a view of its single event.
use low_latency_event_engine.Base.{
  ℕ, ◌+◌, ◌-◌, List, Bool, not, ◌==◌, ◌!=◌, ltb, if◌then◌else◌, bit_and, length, get_or, all, ◌>>>◌,
  add64, Expected, value, unexpected,
}
use low_latency_event_engine.Alignment.{align_up}
use low_latency_event_engine.Protocol.Types.{
  DecodeError, DecodedDataView, magic, version, message_type_value, MessageType,
  common_header_bytes, event_frame_header_bytes, event_frame_alignment_bytes, data_fixed_bytes,
  max_packet_bytes, min_data_packet_bytes, max_single_event_payload_bytes,
}
use low_latency_event_engine.Protocol.ByteIo.{
  Bytes, bytes_from, has_bytes, read_u16, read_u32, read_u64,
}

-- `packet.data()`: the packet's bytes, and behind them whatever lies in memory there.
abbrev pub data_pointer : Bytes → List ℕ → Bytes
data_pointer beyond packet i = get_or packet i (beyond i)

unfoldable pub is_zero : ℕ → Bool
is_zero b = b == 0

abbrev pub Decoded : Type 0
Decoded = Expected DecodedDataView DecodeError

module _ (beyond : Bytes) (packet : List ℕ) where
  abbrev pub field16 : ℕ → ℕ
  field16 = read_u16 (data_pointer beyond packet)

  abbrev pub field32 : ℕ → ℕ
  field32 = read_u32 (data_pointer beyond packet)

  abbrev pub field64 : ℕ → ℕ
  field64 = read_u64 (data_pointer beyond packet)

  -- `packet.subspan(offset, count)`, which does not look at the packet's end.
  abbrev pub span_at : ℕ → ℕ → List ℕ
  span_at = bytes_from (data_pointer beyond packet)

  -- The view that is returned, once the whole datagram is valid.
  abbrev pub decoded_view : DecodedDataView
  decoded_view = record {
    session_id = field32 4;
    packet_sequence = field64 8;
    event = record {
      stream_id = field32 32;
      sequence = field64 16;
      source_timestamp_ns = field64 24;
      payload = span_at (data_fixed_bytes + event_frame_header_bytes) (field16 40);
    };
  }

  -- From `payload_offset` on: the padding, and the end of the packet.
  unfoldable pub decode_padded : ℕ → ℕ → Decoded
  decode_padded payload_size frame_size =
      let payload_offset = data_fixed_bytes + event_frame_header_bytes in
      let padding =
        span_at (payload_offset + payload_size)
          (data_fixed_bytes + frame_size - (payload_offset + payload_size)) in
      if not (all is_zero padding)
      then unexpected DecodeError.non_zero_padding
      else if length packet != add64 data_fixed_bytes frame_size
      then unexpected DecodeError.unsupported_batch
      else value decoded_view

  -- From `payload_size` on: the frame.
  unfoldable pub decode_frame : Decoded
  decode_frame =
      let payload_size = field16 40 in
      let frame_size =
        align_up (add64 event_frame_header_bytes payload_size) event_frame_alignment_bytes in
      if ltb max_single_event_payload_bytes payload_size
      then unexpected DecodeError.malformed_frame
      else if not (has_bytes (length packet) data_fixed_bytes frame_size)
      then unexpected DecodeError.malformed_frame
      else decode_padded payload_size frame_size

  -- From `packet_sequence` on: the fixed fields of DATA.
  unfoldable pub decode_fields : Decoded
  decode_fields =
      if field64 8 == 0
      then unexpected DecodeError.invalid_packet_sequence
      else if field64 16 == 0
      then unexpected DecodeError.invalid_event_sequence
      else if field32 36 != 0
      then unexpected DecodeError.malformed_frame
      else decode_frame

  -- `decode_data`.
  unfoldable pub decode_data : Decoded
  decode_data =
      let version_and_type = data_pointer beyond packet 1 in
      if ltb (length packet) common_header_bytes
      then unexpected DecodeError.truncated
      else if ltb max_packet_bytes (length packet)
      then unexpected DecodeError.packet_too_large
      else if data_pointer beyond packet 0 != magic
      then unexpected DecodeError.invalid_magic
      else if (version_and_type >>> 4) != version
      then unexpected DecodeError.unsupported_version
      else if bit_and version_and_type 0x0f != message_type_value MessageType.message_data
      then unexpected DecodeError.unsupported_type
      else if field16 2 != length packet
      then unexpected DecodeError.packet_length_mismatch
      else if field32 4 == 0
      then unexpected DecodeError.invalid_session_id
      else if ltb (length packet) min_data_packet_bytes
      then unexpected DecodeError.truncated
      else decode_fields
