-- ===== src/Protocol/Types.antt =====
-- include/lle/protocol/types.hpp: wire constants, error codes and the decoded view.
use low_latency_event_engine.Base.{ℕ}
use low_latency_event_engine.Event.{EventView}

abbrev pub magic : ℕ
magic = 0x4c

abbrev pub version : ℕ
version = 1

-- `MessageType`.
pub data MessageType : Type 0 where
  invalid message_data nack : MessageType

-- The value of the enumeration, a `uint8_t`.
abbrev pub message_type_value : MessageType → ℕ
message_type_value MessageType.invalid = 0
message_type_value MessageType.message_data = 1
message_type_value MessageType.nack = 2

abbrev pub common_header_bytes : ℕ
common_header_bytes = 8

abbrev pub data_fixed_bytes : ℕ
data_fixed_bytes = 36

abbrev pub event_frame_header_bytes : ℕ
event_frame_header_bytes = 6

abbrev pub event_frame_alignment_bytes : ℕ
event_frame_alignment_bytes = 4

abbrev pub max_packet_bytes : ℕ
max_packet_bytes = 1416

abbrev pub min_data_packet_bytes : ℕ
min_data_packet_bytes = 44

abbrev pub max_single_event_payload_bytes : ℕ
max_single_event_payload_bytes = 1374

-- `EncodeError`.
pub data EncodeError : Type 0 where
  invalid_session_id invalid_packet_sequence invalid_event_sequence : EncodeError
  payload_too_large output_too_small : EncodeError

-- `DecodeError`.
pub data DecodeError : Type 0 where
  truncated invalid_magic unsupported_version unsupported_type : DecodeError
  packet_length_mismatch packet_too_large invalid_session_id invalid_packet_sequence : DecodeError
  invalid_event_sequence malformed_frame non_zero_padding arithmetic_overflow : DecodeError
  unsupported_batch : DecodeError

-- `DecodedDataView`.
pub record DecodedDataView : Type 0 where
  pub session_id : ℕ
  pub packet_sequence : ℕ
  pub event : EventView
