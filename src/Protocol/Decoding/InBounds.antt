-- ===== src/Protocol/Decoding/InBounds.antt =====
-- `decode_data` of src/protocol/decoder.cpp reads no byte outside the datagram.
use low_latency_event_engine.Base.{
  ℕ, zero, suc, ◌+◌, ◌≤◌, ◌<◌, ◌≡◌, ◌∙◌, refl, sym, add64, ◌-◌, List, [], ◌∷◌, arith, length,
  get_or,
}
use native.Mathlib.Decide.{dec_le}
use low_latency_event_engine.Alignment.{align_up}
use low_latency_event_engine.Protocol.Decoding.Spans.{bytes_from-subspan}
use low_latency_event_engine.Protocol.Decoding.Frames.{frame_size_lem}
use low_latency_event_engine.Protocol.ByteIo.{Bytes, has_bytes, read_u16, read_u32, read_u64}
use low_latency_event_engine.Protocol.Decoder.{
  data_pointer, field16, field32, field64, span_at, decode_padded, decode_frame, decode_fields,
  decode_data,
}

get_or-default : (xs : List ℕ) (i d d' : ℕ) → i < length xs → get_or xs i d ≡ get_or xs i d'
get_or-default [] i d d' h = absurd (omega arith)
get_or-default (x ∷ xs) zero d d' h = refl
get_or-default (x ∷ xs) (suc i) d d' h = get_or-default xs i d d' (omega arith)

module _ (b b' : Bytes) (packet : List ℕ) where
  byte-eq : (i : ℕ) → i < length packet → data_pointer b packet i ≡ data_pointer b' packet i
  byte-eq i h = get_or-default packet i (b i) (b' i) h

  field16-eq : (at : ℕ) → at + 2 ≤ length packet → field16 b packet at ≡ field16 b' packet at
  unfolding read_u16
  field16-eq at h = rw (byte-eq at (omega arith), byte-eq (at + 1) (omega arith))

  field32-eq : (at : ℕ) → at + 4 ≤ length packet → field32 b packet at ≡ field32 b' packet at
  unfolding read_u32
  field32-eq at h = rw (field16-eq at (omega arith), field16-eq (at + 2) (omega arith))

  field64-eq : (at : ℕ) → at + 8 ≤ length packet → field64 b packet at ≡ field64 b' packet at
  unfolding read_u64
  field64-eq at h = rw (field32-eq at (omega arith), field32-eq (at + 4) (omega arith))

  span_at-eq : (at n : ℕ) → at + n ≤ length packet → span_at b packet at n ≡ span_at b' packet at n
  span_at-eq at n h = bytes_from-subspan b packet at n h ∙ sym (bytes_from-subspan b' packet at n h)

  abbrev count : ℕ
  count = field16 b' packet 40

  decode_padded-eq :
      (frame_size : ℕ)
      → 6 + count ≤ frame_size
      → 36 + frame_size ≤ length packet
      → decode_padded b packet count frame_size ≡ decode_padded b' packet count frame_size
  unfolding decode_padded
  decode_padded-eq frame_size room inside = rw (
    span_at-eq (42 + count) (36 + frame_size - (42 + count)) (omega arith),
    field64-eq 8 (omega arith),
    field64-eq 16 (omega arith),
    field64-eq 24 (omega arith),
    field32-eq 4 (omega arith),
    field32-eq 32 (omega arith),
    field16-eq 40 (omega arith),
    span_at-eq 42 count (omega arith),
  )

  -- The frame is in the packet behind the two guards of `decode_frame`.
  decode_frame-eq : 44 ≤ length packet → decode_frame b packet ≡ decode_frame b' packet
  unfolding decode_frame has_bytes
  decode_frame-eq h = rw (field16-eq 40 (omega arith)) (elim (dec_le count 1374) [
    | no large ↦ ground arith
    | yes small ↦ elim (dec_le (36 + align_up (add64 6 count) 4) (length packet)) [
      | no outside ↦ ground (arith, frame_size_lem count small)
      | yes inside ↦
          rw
            (decode_padded-eq (align_up (add64 6 count) 4)
              (omega (arith, frame_size_lem count small)) inside)
            refl
    ]
  ])

  decode_fields-eq : 44 ≤ length packet → decode_fields b packet ≡ decode_fields b' packet
  unfolding decode_fields
  decode_fields-eq h = rw (
    field64-eq 8 (omega arith),
    field64-eq 16 (omega arith),
    field32-eq 36 (omega arith),
    decode_frame-eq h,
  )

  -- The result of `decode_data` does not depend on what lies in memory behind the datagram: on
  -- every branch, accepted or not, the bytes that decide are bytes of the datagram.
  pub decode_data-beyond : decode_data b packet ≡ decode_data b' packet
  unfolding decode_data
  decode_data-beyond =
      ground (arith, byte-eq 0, byte-eq 1, field16-eq 2, field32-eq 4, decode_fields-eq)
