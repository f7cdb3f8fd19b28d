-- ===== src/Protocol/Decoding/Frames.antt =====
-- The checks of `decode_data` on the event frame, with the sizes in closed form.
use low_latency_event_engine.Base.{
  ℕ, ◌+◌, ◌*◌, ◌/◌, ◌≤◌, ◌≡◌, ◌∙◌, ap, arith, List, length, all, true, add64, value,
}
use low_latency_event_engine.Alignment.{align_up}
use low_latency_event_engine.Alignment.Laws.{align_up_four}
use low_latency_event_engine.Protocol.Types.{DecodedDataView}
use low_latency_event_engine.Protocol.ByteIo.{Bytes, has_bytes}
use low_latency_event_engine.Protocol.Decoder.{
  is_zero, field16, span_at, decoded_view, decode_padded, decode_frame,
}
use low_latency_event_engine.Protocol.Wire.{wire_size, padding_size}

pub frame_size_lem : (n : ℕ) → n ≤ 1374 → align_up (add64 6 n) 4 ≡ (n + 9) / 4 * 4
frame_size_lem n h = ap (λ t. align_up t 4) sum ∙ align_up_four (n + 6) (omega arith) ∙ omega arith
  where
    sum : add64 6 n ≡ n + 6
    sum = omega arith

-- What `decode_frame` has seen when it returns a view: all of the packet is one frame.
pub record IsFrame (beyond : Bytes) (packet : List ℕ) (n : ℕ) : Type 0 where
  pub small : n ≤ 1374
  pub size : length packet ≡ wire_size n
  pub padded : all is_zero (span_at beyond packet (42 + n) (padding_size n)) ≡ true

module _ (beyond : Bytes) (packet : List ℕ) where
  pub decode_frame-value :
      IsFrame beyond packet (field16 beyond packet 40)
      → decode_frame beyond packet ≡ value (decoded_view beyond packet)
  unfolding decode_frame decode_padded has_bytes
  decode_frame-value f =
      ground (arith, f.small, f.size, f.padded, frame_size_lem (field16 beyond packet 40) f.small)

  pub decode_frame-IsFrame :
      {view : DecodedDataView}
      → length packet ≤ 1416
      → decode_frame beyond packet ≡ value view
      → IsFrame beyond packet (field16 beyond packet 40) × (view ≡ decoded_view beyond packet)
  unfolding decode_frame decode_padded has_bytes
  decode_frame-IsFrame bound e = ground (arith, frame_size_lem (field16 beyond packet 40))
