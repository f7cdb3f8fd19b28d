-- ===== src/Protocol/Encoding.antt =====
-- `encode_data` of src/protocol/encoder.cpp writes exactly the packet of docs/protocol.md.
mod Writes
use low_latency_event_engine.Base.{
  ℕ, zero, suc, ◌+◌, ◌-◌, ◌*◌, ◌/◌, ◌%◌, ◌^◌, ◌≤◌, ◌<◌, ◌≡◌, ◌≢◌, ◌⊎◌, ◌∙◌, refl, sym, ap, List, [],
  ◌∷◌, ◌++◌, arith, length, replicate, drop, Expected, value, unexpected, add64, ltb, lt→ltb,
  le→ltb, ne→==, bit_or, u16, length-append,
}
use low_latency_event_engine.Alignment.{align_up}
use low_latency_event_engine.Alignment.Laws.{align_up_four}
use low_latency_event_engine.Event.{EventView}
use low_latency_event_engine.Protocol.Types.{EncodeError, DecodedDataView}
use low_latency_event_engine.Protocol.Encoder.{
  frame_size_of, packet_size_of, write_packet, encode_data,
}
use low_latency_event_engine.Protocol.Wire.{
  bytes_u16, bytes_u32, bytes_u64, wire_packet, header_bytes, wire_size, padding_size, IsSendable,
  HasWidths, length-wire_packet,
}
use Writes.{
  Written, set-Written, write_u16-Written, write_u32-Written, write_u64-Written, copy_at-Written,
  fill_zero-Written,
}
use mathlib.Core.List.{append_assoc}

pub frame_size_lem : (n : ℕ) → n ≤ 1374 → frame_size_of n ≡ (n + 9) / 4 * 4
unfolding frame_size_of
frame_size_lem n h = ap (λ t. align_up t 4) sum ∙ align_up_four (n + 6) (omega arith) ∙ omega arith
  where
    sum : add64 n 6 ≡ n + 6
    sum = omega arith

pub packet_size_lem : (n : ℕ) → n ≤ 1374 → packet_size_of n ≡ wire_size n
unfolding packet_size_of
packet_size_lem n h = omega (arith, frame_size_lem n h)

module _ (view : DecodedDataView) (out : List ℕ) where
  open view use {session_id, packet_sequence, event}

  abbrev count : ℕ
  count = length event.payload

  -- The writes in the order of the code, with the code's own sizes.
  write_packet-Written :
      HasWidths view
      → 42 + count ≤ packet_size_of count
      → packet_size_of count ≤ length out
      → Written out
          ((header_bytes view (u16 (packet_size_of count)) (u16 count) ++ event.payload)
            ++ replicate (packet_size_of count - (42 + count)) 0)
          (write_packet event session_id packet_sequence out)
  unfolding write_packet
  write_packet-Written w enough room =
      let w1 = set-Written out {pre = []} 0 0x4c (record { front = refl }) refl (omega arith) in
      let w2 = set-Written out 1 0x11 w1 refl (omega arith) in
      let w3 = write_u16-Written out 2 (u16 (packet_size_of count)) w2 refl (omega arith) in
      let w4 = write_u32-Written out 4 session_id w3 refl (omega arith) in
      let w5 = write_u64-Written out 8 packet_sequence w.packet_width w4 refl (omega arith) in
      let w6 = write_u64-Written out 16 event.sequence w.event_width w5 refl (omega arith) in
      let w7 =
        write_u64-Written out 24 event.source_timestamp_ns w.time_width w6 refl (omega arith) in
      let w8 = write_u32-Written out 32 event.stream_id w7 refl (omega arith) in
      let w9 = write_u32-Written out 36 0 w8 refl (omega arith) in
      let w10 = write_u16-Written out 40 (u16 count) w9 refl (omega arith) in
      let w11 = copy_at-Written out 42 event.payload w10 refl (omega arith) in
      fill_zero-Written out (42 + count) (packet_size_of count - (42 + count)) w11
        (omega (arith, length-append (header_bytes view 0 0) event.payload)) (omega arith)

  write_packet_lem :
      IsSendable view
      → HasWidths view
      → wire_size count ≤ length out
      → write_packet event session_id packet_sequence out
        ≡ wire_packet view ++ drop (wire_size count) out
  write_packet_lem s w room =
      let size : packet_size_of count ≡ wire_size count = packet_size_lem count s.fits in
      let written = write_packet-Written w (omega (arith, s.fits)) (omega arith) in
      let size16 : u16 (packet_size_of count) ≡ wire_size count = omega (arith, s.fits) in
      let count16 : u16 count ≡ count = omega (arith, s.fits) in
      let pad : packet_size_of count - (42 + count) ≡ padding_size count = omega arith in
      let placed = rw (size16, count16, pad) at written in
      placed.front ∙ ap (λ n. wire_packet view ++ drop n out) (length-wire_packet view)

  -- For an event and identity that may be sent and a buffer that is large enough, `encode_data`
  -- returns the size of the packet, overwrites the front of the buffer by the packet of
  -- docs/protocol.md, and leaves every byte behind it as it was.
  pub encode_data_lem :
      IsSendable view
      → HasWidths view
      → wire_size count ≤ length out
      → encode_data event session_id packet_sequence out
        ≡ (value (wire_size count), wire_packet view ++ drop (wire_size count) out)
  unfolding encode_data
  encode_data_lem s w room = ground (
    arith,
    s.session,
    s.packet,
    s.event,
    s.fits,
    packet_size_lem count s.fits,
    write_packet_lem s w room,
  )

  -- `encode_data` succeeds only for what may be sent, into a buffer that is large enough, and then
  -- returns the size of the packet.
  pub encode_data-value :
      (n : ℕ)
      → (encode_data event session_id packet_sequence out).0 ≡ value n
      → IsSendable view × (wire_size count ≤ length out) × (n ≡ wire_size count)
  unfolding encode_data
  encode_data-value n e = ground (arith, packet_size_lem count)

  -- Where `encode_data` returns an error, whichever it is, it leaves the buffer as it was.
  pub encode_data-unexpected :
      (e : EncodeError)
      → (encode_data event session_id packet_sequence out).0 ≡ unexpected e
      → (encode_data event session_id packet_sequence out).1 ≡ out
  unfolding encode_data
  encode_data-unexpected err e = ground arith
