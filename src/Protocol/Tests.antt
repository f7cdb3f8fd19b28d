-- ===== src/Protocol/Tests.antt =====
-- The protocol at concrete inputs.
use low_latency_event_engine.Base.{
  ℕ, ◌≡◌, ◌≤◌, ◌↔◌, drop, arith, refl, List, [], ◌∷◌, ◌++◌, replicate, copy_at, value,
}
use low_latency_event_engine.Alignment.{align_up}
use low_latency_event_engine.Event.{EventView}
use low_latency_event_engine.Protocol.Wire.{wire_packet, IsSendable, HasWidths, IsBytes}
use low_latency_event_engine.Protocol.Encoding.{
  encode_data_lem, encode_data-value, encode_data-unexpected,
}
use low_latency_event_engine.Protocol.Decoding.Soundness.{decode_data-value_iff}
use low_latency_event_engine.Protocol.Decoding.InBounds.{decode_data-beyond}
use low_latency_event_engine.Protocol.Types.{EncodeError, DecodedDataView}
use low_latency_event_engine.Protocol.ByteIo.{
  has_bytes, write_u16, write_u32, write_u64, read_u16, read_u32, read_u64, Bytes,
}
use low_latency_event_engine.Protocol.Encoder.{
  fill_zero, frame_size_of, packet_size_of, write_packet, encode_data,
}
use low_latency_event_engine.Protocol.Decoder.{
  is_zero, decode_frame, decode_padded, decode_fields, decode_data,
}

-- An event with a payload of three bytes, so with three bytes of padding.
abbrev event : EventView
event = record {
  stream_id = 7;
  sequence = 0x0102;
  source_timestamp_ns = 0x1122_3344_5566_7788;
  payload = 0xaa ∷ 0xbb ∷ 0xcc ∷ [];
}

abbrev buffer : List ℕ
buffer = replicate 50 0xff

abbrev nothing : Bytes
nothing _ = 0

-- The packet of `event` in session 9, as packet 3.
abbrev packet : List ℕ
packet =
    0x4c ∷ 0x11 ∷ 48 ∷ 0 ∷ 9 ∷ 0 ∷ 0 ∷ 0 ∷ 3 ∷ 0 ∷ 0 ∷ 0 ∷ 0 ∷ 0 ∷ 0 ∷ 0 ∷ 0x02 ∷ 0x01 ∷ 0 ∷ 0 ∷ 0
    ∷ 0 ∷ 0 ∷ 0 ∷ 0x88 ∷ 0x77 ∷ 0x66 ∷ 0x55 ∷ 0x44 ∷ 0x33 ∷ 0x22 ∷ 0x11 ∷ 7 ∷ 0 ∷ 0 ∷ 0 ∷ 0 ∷ 0 ∷ 0
    ∷ 0 ∷ 3 ∷ 0 ∷ 0xaa ∷ 0xbb ∷ 0xcc ∷ 0 ∷ 0 ∷ 0 ∷ []

encode_event : encode_data event 9 3 buffer ≡ (value 48, packet ++ (0xff ∷ 0xff ∷ []))
unfolding encode_data write_packet packet_size_of frame_size_of align_up write_u16 write_u32
    write_u64 copy_at fill_zero
encode_event = refl

decode_packet :
    decode_data nothing packet
    ≡ value (record { session_id = 9; packet_sequence = 3; event = event })
unfolding decode_data decode_fields decode_frame decode_padded align_up has_bytes is_zero read_u16
    read_u32 read_u64
decode_packet = refl

abbrev view : DecodedDataView
view = record { session_id = 9; packet_sequence = 3; event = event }

view-IsSendable : IsSendable view
view-IsSendable = omega arith

view-HasWidths : HasWidths view
view-HasWidths = omega arith

encode_data_lem_example :
    encode_data event 9 3 buffer ≡ (value 48, wire_packet view ++ drop 48 buffer)
encode_data_lem_example = encode_data_lem view buffer view-IsSendable view-HasWidths (omega arith)

encode_data-value_example : IsSendable view × (48 ≤ 50) × (◌≡◌ {A = ℕ} 48 48)
unfolding encode_data write_packet packet_size_of frame_size_of align_up write_u16 write_u32
    write_u64 copy_at fill_zero
encode_data-value_example = encode_data-value view buffer 48 refl

encode_data-unexpected_example : (encode_data event 9 3 []).1 ≡ []
unfolding encode_data packet_size_of frame_size_of align_up
encode_data-unexpected_example = encode_data-unexpected view [] EncodeError.output_too_small refl

packet-IsBytes : IsBytes packet
packet-IsBytes = omega arith

decode_data-value_iff_example :
    (decode_data nothing packet ≡ value view)
    ↔ ((packet ≡ wire_packet view) × IsSendable view × HasWidths view)
decode_data-value_iff_example = decode_data-value_iff nothing packet view packet-IsBytes

decode_data-beyond_example : decode_data nothing packet ≡ decode_data (λ i. i) packet
decode_data-beyond_example = decode_data-beyond nothing (λ i. i) packet
