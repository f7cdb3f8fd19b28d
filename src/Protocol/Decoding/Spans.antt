-- ===== src/Protocol/Decoding/Spans.antt =====
-- Spans of the datagram of src/protocol/decoder.cpp that lie within it.
use low_latency_event_engine.Base.{
  ℕ, zero, suc, ◌+◌, ◌≤◌, ◌≡◌, ◌∙◌, refl, sym, ap, List, ◌∷◌, ◌++◌, arith, length, take, drop,
  get_or, drop-get_or, drop-cong, subspan, take_left_of,
}
use low_latency_event_engine.Protocol.ByteIo.{Bytes, bytes_from}
use low_latency_event_engine.Protocol.Decoder.{data_pointer}

pub bytes_from-drop :
    (beyond : Bytes) (packet : List ℕ) (at n : ℕ)
    → at + n ≤ length packet
    → bytes_from (data_pointer beyond packet) at n ++ drop (at + n) packet ≡ drop at packet
bytes_from-drop beyond packet at zero h = drop-cong (at + zero) at packet (omega arith)
bytes_from-drop beyond packet at (suc n) h =
    ap (λ t. get_or packet at (beyond at) ∷ t)
      (ap (λ t. bytes_from (data_pointer beyond packet) (at + 1) n ++ t)
          (drop-cong (at + suc n) (at + 1 + n) packet (omega arith))
        ∙ bytes_from-drop beyond packet (at + 1) n (omega arith)
        ∙ drop-cong (at + 1) (suc at) packet (omega arith))
    ∙ drop-get_or at (beyond at) packet (omega arith)

pub length-bytes_from : (src : Bytes) (at n : ℕ) → length (bytes_from src at n) ≡ n
length-bytes_from src at zero = refl
length-bytes_from src at (suc n) = ap suc (length-bytes_from src (at + 1) n)

-- Within the packet, the bytes behind its pointer are those of the list.
pub bytes_from-subspan :
    (beyond : Bytes) (packet : List ℕ) (at n : ℕ)
    → at + n ≤ length packet
    → bytes_from (data_pointer beyond packet) at n ≡ subspan packet at n
bytes_from-subspan beyond packet at n h =
    sym (
      take_left_of n (bytes_from (data_pointer beyond packet) at n) (drop (at + n) packet)
        (sym (length-bytes_from (data_pointer beyond packet) at n)))
    ∙ ap (take n) (bytes_from-drop beyond packet at n h)
