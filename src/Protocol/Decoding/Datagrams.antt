-- ===== src/Protocol/Decoding/Datagrams.antt =====
-- Which datagrams `decode_data` of src/protocol/decoder.cpp accepts.
use low_latency_event_engine.Base.{ℕ, ◌≤◌, ◌≡◌, ◌≢◌, arith, List, length, value}
use low_latency_event_engine.Base.Bits.{bit_and_mask}
use low_latency_event_engine.Protocol.Types.{DecodedDataView}
use low_latency_event_engine.Protocol.ByteIo.{Bytes}
use low_latency_event_engine.Protocol.Decoder.{
  data_pointer, field16, field32, field64, decoded_view, decode_frame, decode_fields, decode_data,
}
use low_latency_event_engine.Protocol.Decoding.Frames.{
  IsFrame, decode_frame-value, decode_frame-IsFrame,
}

-- A packet that holds one event as docs/protocol.md wants it, by its fields.
pub record IsDatagram (beyond : Bytes) (packet : List ℕ) : Type 0 where
  pub first : data_pointer beyond packet 0 ≡ 0x4c
  pub second : data_pointer beyond packet 1 ≡ 0x11
  pub size : field16 beyond packet 2 ≡ length packet
  pub session : field32 beyond packet 4 ≢ 0
  pub sequence : field64 beyond packet 8 ≢ 0
  pub event : field64 beyond packet 16 ≢ 0
  pub delta : field32 beyond packet 36 ≡ 0
  pub frame : IsFrame beyond packet (field16 beyond packet 40)

module _ (beyond : Bytes) (packet : List ℕ) where
  pub decode_data-value :
      IsDatagram beyond packet → decode_data beyond packet ≡ value (decoded_view beyond packet)
  unfolding decode_data decode_fields
  decode_data-value d = ground (
    arith,
    d.first,
    d.second,
    d.size,
    d.session,
    d.sequence,
    d.event,
    d.delta,
    d.frame.size,
    d.frame.small,
    decode_frame-value beyond packet d.frame,
  )

  decode_fields-inverse :
      (view : DecodedDataView)
      → length packet ≤ 1416
      → decode_fields beyond packet ≡ value view
      → (field64 beyond packet 8 ≢ 0)
        × (field64 beyond packet 16 ≢ 0)
        × (field32 beyond packet 36 ≡ 0)
        × (decode_frame beyond packet ≡ value view)
  unfolding decode_fields
  decode_fields-inverse view bound e = ground arith

  decode_data-inverse :
      (view : DecodedDataView)
      → decode_data beyond packet ≡ value view
      → (length packet ≤ 1416)
        × (data_pointer beyond packet 0 ≡ 0x4c)
        × (data_pointer beyond packet 1 ≡ 0x11)
        × (field16 beyond packet 2 ≡ length packet)
        × (field32 beyond packet 4 ≢ 0)
        × (decode_fields beyond packet ≡ value view)
  unfolding decode_data
  decode_data-inverse view e = ground (arith, bit_and_mask 4 (data_pointer beyond packet 1))

  pub decode_data-IsDatagram :
      (view : DecodedDataView)
      → decode_data beyond packet ≡ value view
      → IsDatagram beyond packet × (view ≡ decoded_view beyond packet)
  decode_data-IsDatagram view e =
      let (bound, first, second, size, session, fields) = decode_data-inverse view e in
      let (sequence, event, delta, framed) = decode_fields-inverse view bound fields in
      let (frame, same) = decode_frame-IsFrame beyond packet bound framed in
      (
        record {
          first = first;
          second = second;
          size = size;
          session = session;
          sequence = sequence;
          event = event;
          delta = delta;
          frame = frame;
        },
        same,
      )
