-- ===== src/Protocol/Decoding/RoundTrip.antt =====
-- `decode_data` of src/protocol/decoder.cpp reads back every packet of docs/protocol.md that holds
-- one event.
use low_latency_event_engine.Base.{
  ℕ, zero, suc, ◌+◌, ◌≡◌, ◌∙◌, refl, sym, ap, List, ◌++◌, arith, length, replicate, take, value,
  all, true, length-append, length-replicate, take_all_of, drop_left_of, take_left_of,
}
use low_latency_event_engine.Protocol.Types.{DecodedDataView}
use low_latency_event_engine.Protocol.ByteIo.{Bytes}
use low_latency_event_engine.Protocol.Decoder.{
  is_zero, data_pointer, field16, field32, field64, span_at, decoded_view, decode_data,
}
use low_latency_event_engine.Protocol.Wire.{
  wire_packet, wire_header, wire_size, padding_size, IsSendable, HasWidths, length-wire_packet,
}
use low_latency_event_engine.Protocol.Decoding.Reads.{read_u16_lem, read_u32_lem, read_u64_lem}
use low_latency_event_engine.Protocol.Decoding.Spans.{bytes_from-subspan}
use low_latency_event_engine.Protocol.Decoding.Frames.{IsFrame}
use low_latency_event_engine.Protocol.Decoding.Datagrams.{IsDatagram, decode_data-value}

all_zero_replicate : (n : ℕ) → all is_zero (replicate n 0) ≡ true
unfolding is_zero
all_zero_replicate zero = refl
all_zero_replicate (suc n) = all_zero_replicate n

module _ (beyond : Bytes) (view : DecodedDataView) (s : IsSendable view) (w : HasWidths view) where
  abbrev packet : List ℕ
  packet = wire_packet view

  abbrev count : ℕ
  count = length view.event.payload

  session_field : field32 beyond packet 4 ≡ view.session_id
  session_field =
      read_u32_lem (data_pointer beyond packet) 4 view.session_id (omega arith)
      ∙ omega (arith, w.session_width)

  sequence_field : field64 beyond packet 8 ≡ view.packet_sequence
  sequence_field =
      read_u64_lem (data_pointer beyond packet) 8 view.packet_sequence (omega arith)
      ∙ omega (arith, w.packet_width)

  event_field : field64 beyond packet 16 ≡ view.event.sequence
  event_field =
      read_u64_lem (data_pointer beyond packet) 16 view.event.sequence (omega arith)
      ∙ omega (arith, w.event_width)

  time_field : field64 beyond packet 24 ≡ view.event.source_timestamp_ns
  time_field =
      read_u64_lem (data_pointer beyond packet) 24 view.event.source_timestamp_ns (omega arith)
      ∙ omega (arith, w.time_width)

  stream_field : field32 beyond packet 32 ≡ view.event.stream_id
  stream_field =
      read_u32_lem (data_pointer beyond packet) 32 view.event.stream_id (omega arith)
      ∙ omega (arith, w.stream_width)

  count_field : field16 beyond packet 40 ≡ count
  count_field =
      read_u16_lem (data_pointer beyond packet) 40 count (omega arith) ∙ omega (arith, s.fits)

  size_field : field16 beyond packet 2 ≡ wire_size count
  size_field =
      read_u16_lem (data_pointer beyond packet) 2 (wire_size count) (omega arith)
      ∙ omega (arith, s.fits)

  abbrev pad : List ℕ
  pad = replicate (padding_size count) 0

  -- The payload that the view shows, and the padding that is checked.
  payload_field : span_at beyond packet 42 count ≡ view.event.payload
  payload_field =
      bytes_from-subspan beyond packet 42 count (omega (arith, length-wire_packet view, s.fits))
      ∙ take_left_of count view.event.payload pad refl

  padding_field : span_at beyond packet (42 + count) (padding_size count) ≡ pad
  padding_field =
      bytes_from-subspan beyond packet (42 + count) (padding_size count)
        (omega (arith, length-wire_packet view, s.fits))
      ∙ ap (take (padding_size count)) (
          drop_left_of (42 + count) (wire_header view ++ view.event.payload) pad
            (omega (arith, length-append (wire_header view) view.event.payload)))
      ∙ take_all_of (padding_size count) pad (sym (length-replicate (padding_size count) 0))

  wire_packet-IsFrame : IsFrame beyond packet (field16 beyond packet 40)
  wire_packet-IsFrame = rw count_field (record {
    small = s.fits;
    size = length-wire_packet view;
    padded = rw padding_field (all_zero_replicate (padding_size count));
  })

  wire_packet-IsDatagram : IsDatagram beyond packet
  wire_packet-IsDatagram = record {
    first = refl;
    second = refl;
    size = size_field ∙ sym (length-wire_packet view);
    session = rw session_field s.session;
    sequence = rw sequence_field s.packet;
    event = rw event_field s.event;
    delta = read_u32_lem (data_pointer beyond packet) 36 0 (omega arith);
    frame = wire_packet-IsFrame;
  }

  view_fields : decoded_view beyond packet ≡ view
  view_fields =
      rw (session_field, sequence_field, event_field, time_field, stream_field, count_field)
        (λ i. record view { event = record view.event { payload = payload_field i } })

  -- Decoding the packet of docs/protocol.md gives back the event and its packet identity, for
  -- everything that may be sent.
  pub decode_data-wire_packet : decode_data beyond (wire_packet view) ≡ value view
  decode_data-wire_packet =
      decode_data-value beyond packet wire_packet-IsDatagram ∙ ap value view_fields
