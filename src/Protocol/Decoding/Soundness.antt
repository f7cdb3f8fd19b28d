-- ===== src/Protocol/Decoding/Soundness.antt =====
-- `decode_data` of src/protocol/decoder.cpp accepts nothing but packets of docs/protocol.md, and
-- reads no byte outside the datagram.
use low_latency_event_engine.Base.{
  ℕ, ◌+◌, ◌^◌, ◌<◌, ◌≡◌, ◌↔◌, ◌∙◌, refl, sym, ap, ap₂, List, [], ◌∷◌, ◌++◌, arith, length,
  replicate, drop, value, All-get_or, all, true, length-drop, take_all_of,
}
use low_latency_event_engine.Protocol.Types.{DecodedDataView}
use low_latency_event_engine.Protocol.ByteIo.{Bytes, bytes_from, read_u16, read_u32, read_u64}
use low_latency_event_engine.Protocol.Decoder.{
  is_zero, data_pointer, field16, field32, field64, span_at, decoded_view, decode_data,
}
use low_latency_event_engine.Protocol.Wire.{
  bytes_u16, bytes_u32, bytes_u64, wire_packet, header_bytes, wire_size, padding_size, IsSendable,
  HasWidths, IsBytes,
}
use low_latency_event_engine.Protocol.Decoding.Reads.{
  read_u16_sum, read_u32_sum, read_u64_sum, read_u32-lt, read_u64-lt,
}
use low_latency_event_engine.Protocol.Decoding.Spans.{
  bytes_from-drop, bytes_from-subspan, length-bytes_from,
}
use low_latency_event_engine.Protocol.Decoding.Datagrams.{IsDatagram, decode_data-IsDatagram}
use low_latency_event_engine.Protocol.Decoding.RoundTrip.{decode_data-wire_packet}

all_zero-eq : (xs : List ℕ) → all is_zero xs ≡ true → xs ≡ replicate (length xs) 0
unfolding is_zero
all_zero-eq [] h = refl
all_zero-eq (x ∷ xs) h = ground (arith, all_zero-eq xs)

module _ (src : Bytes) (at : ℕ) where
  digits16 :
      src at < 2 ^ 8
      → src (at + 1) < 2 ^ 8
      → src at ∷ src (at + 1) ∷ [] ≡ bytes_u16 (read_u16 src at)
  digits16 a b = ground (arith, read_u16_sum src at a b)

  digits32 :
      src at < 2 ^ 8
      → src (at + 1) < 2 ^ 8
      → src (at + 2) < 2 ^ 8
      → src (at + 2 + 1) < 2 ^ 8
      → src at ∷ src (at + 1) ∷ src (at + 2) ∷ src (at + 2 + 1) ∷ [] ≡ bytes_u32 (read_u32 src at)
  digits32 a b c d =
      ground (arith, read_u32_sum src at, read_u16_sum src at a b, read_u16_sum src (at + 2) c d)

  digits64 :
      bytes_u32 (read_u32 src at) ++ bytes_u32 (read_u32 src (at + 4)) ≡ bytes_u64 (read_u64 src at)
  digits64 =
      ap₂ (λ lo hi. bytes_u32 lo ++ bytes_u32 hi)
        (omega (arith, read_u64_sum src at, read_u32-lt src at))
        (omega (arith, read_u64_sum src at, read_u32-lt src at))

module _ (beyond : Bytes) (packet : List ℕ) (bytes : IsBytes packet)
    (d : IsDatagram beyond packet) where
  abbrev view : DecodedDataView
  view = decoded_view beyond packet

  abbrev count : ℕ
  count = field16 beyond packet 40

  byte-lt : (i : ℕ) → i < 42 → data_pointer beyond packet i < 2 ^ 8
  byte-lt i h = All-get_or (λ b. b < 2 ^ 8) packet i (beyond i) bytes (omega (arith, d.frame.size))

  word :
      (at : ℕ)
      → at < 39
      → data_pointer beyond packet at
          ∷ data_pointer beyond packet (at + 1)
          ∷ data_pointer beyond packet (at + 2)
          ∷ data_pointer beyond packet (at + 2 + 1)
          ∷ []
        ≡ bytes_u32 (field32 beyond packet at)
  word at h =
      digits32 (data_pointer beyond packet) at (byte-lt at (omega arith))
        (byte-lt (at + 1) (omega arith)) (byte-lt (at + 2) (omega arith))
        (byte-lt (at + 2 + 1) (omega arith))

  half :
      (at : ℕ)
      → at < 41
      → data_pointer beyond packet at ∷ data_pointer beyond packet (at + 1) ∷ []
        ≡ bytes_u16 (field16 beyond packet at)
  half at h =
      digits16 (data_pointer beyond packet) at (byte-lt at (omega arith))
        (byte-lt (at + 1) (omega arith))

  long :
      (at : ℕ)
      → at < 35
      → (data_pointer beyond packet at
            ∷ data_pointer beyond packet (at + 1)
            ∷ data_pointer beyond packet (at + 2)
            ∷ data_pointer beyond packet (at + 2 + 1)
            ∷ [])
          ++ (data_pointer beyond packet (at + 4)
              ∷ data_pointer beyond packet (at + 4 + 1)
              ∷ data_pointer beyond packet (at + 4 + 2)
              ∷ data_pointer beyond packet (at + 4 + 2 + 1)
              ∷ [])
        ≡ bytes_u64 (field64 beyond packet at)
  long at h =
      ap₂ ◌++◌ (word at (omega arith)) (word (at + 4) (omega arith))
      ∙ digits64 (data_pointer beyond packet) at

  header_lem :
      bytes_from (data_pointer beyond packet) 0 42
      ≡ header_bytes view (field16 beyond packet 2) count
  header_lem = ap₂ ◌∷◌ d.first (
      ap₂ ◌∷◌ d.second (
        ap₂ ◌++◌ (half 2 (omega arith)) (
          ap₂ ◌++◌ (word 4 (omega arith)) (
            ap₂ ◌++◌ (long 8 (omega arith)) (
              ap₂ ◌++◌ (long 16 (omega arith)) (
                ap₂ ◌++◌ (long 24 (omega arith)) (
                  ap₂ ◌++◌ (word 32 (omega arith)) (
                    ap₂ ◌++◌ (word 36 (omega arith) ∙ ap bytes_u32 d.delta)
                      (half 40 (omega arith))))))))))

  shown : length view.event.payload ≡ count
  shown = length-bytes_from (data_pointer beyond packet) 42 count

  tail_lem : drop 42 packet ≡ view.event.payload ++ replicate (padding_size count) 0
  tail_lem =
      sym (bytes_from-drop beyond packet 42 count (omega (arith, d.frame.size)))
      ∙ ap (λ t. view.event.payload ++ t) padding_lem
    where
      rest : length (drop (42 + count) packet) ≡ padding_size count
      rest = omega (arith, length-drop (42 + count) packet, d.frame.size)

      whole : span_at beyond packet (42 + count) (padding_size count) ≡ drop (42 + count) packet
      whole =
          bytes_from-subspan beyond packet (42 + count) (padding_size count)
            (omega (arith, d.frame.size))
          ∙ take_all_of (padding_size count) (drop (42 + count) packet) (sym rest)

      padding_lem : drop (42 + count) packet ≡ replicate (padding_size count) 0
      padding_lem =
          all_zero-eq (drop (42 + count) packet) (rw whole at d.frame.padded)
          ∙ ap (λ n. replicate n 0) rest

  wire_packet_lem : packet ≡ wire_packet view
  wire_packet_lem =
      sym (bytes_from-drop beyond packet 0 42 (omega (arith, d.frame.size)))
      ∙ ap₂ ◌++◌ header_lem tail_lem
      ∙ ap₂
          (λ size n.
            header_bytes view size count ++ (view.event.payload ++ replicate (padding_size n) 0))
          (d.size ∙ d.frame.size) (sym shown)
      ∙ ap₂
          (λ size n.
            header_bytes view size n
            ++ (view.event.payload ++ replicate (padding_size (length view.event.payload)) 0))
          (ap wire_size (sym shown)) (sym shown)

  view-IsSendable : IsSendable view
  view-IsSendable = record {
    session = d.session;
    packet = d.sequence;
    event = d.event;
    fits = omega (arith, shown, d.frame.small);
  }

  view-HasWidths : HasWidths view
  view-HasWidths = record {
    session_width = read_u32-lt (data_pointer beyond packet) 4;
    packet_width = read_u64-lt (data_pointer beyond packet) 8;
    event_width = read_u64-lt (data_pointer beyond packet) 16;
    time_width = read_u64-lt (data_pointer beyond packet) 24;
    stream_width = read_u32-lt (data_pointer beyond packet) 32;
  }

-- A datagram of bytes is decoded to a view exactly when it is the packet of that view as
-- docs/protocol.md lays it out and the view may be sent: a nonzero session, packet and event
-- sequence, at most 1374 payload bytes, and fields of their widths.
pub decode_data-value_iff :
    (beyond : Bytes) (packet : List ℕ) (v : DecodedDataView)
    → IsBytes packet
    → (decode_data beyond packet ≡ value v)
      ↔ ((packet ≡ wire_packet v) × IsSendable v × HasWidths v)
decode_data-value_iff beyond packet v bytes = (forward, backward)
  where
    forward :
        decode_data beyond packet ≡ value v → (packet ≡ wire_packet v) × IsSendable v × HasWidths v
    forward e =
        let (d, same) = decode_data-IsDatagram beyond packet v e in
        rw same (
          wire_packet_lem beyond packet bytes d,
          view-IsSendable beyond packet bytes d,
          view-HasWidths beyond packet bytes d,
        )

    backward :
        (packet ≡ wire_packet v) × IsSendable v × HasWidths v → decode_data beyond packet ≡ value v
    backward (e, s, w) = ap (decode_data beyond) e ∙ decode_data-wire_packet beyond v s w
