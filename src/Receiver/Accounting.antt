-- ===== src/Receiver/Accounting.antt =====
-- The counters and the loss detector of src/receiver/receiver.cpp account for every datagram.
use low_latency_event_engine.Base.{
  ℕ, ◌+◌, ◌≡◌, ◌≢◌, ◌⊎◌, inl, inr, refl, arith, List, u64, Expected, value, unexpected,
  Expected-cases,
}
use low_latency_event_engine.Event.{EventView, PublishResult}
use low_latency_event_engine.Protocol.Types.{DecodeError, DecodedDataView}
use low_latency_event_engine.Protocol.Decoder.{decode_data}
use low_latency_event_engine.Protocol.Wire.{IsBytes}
use low_latency_event_engine.Protocol.Decoding.Soundness.{decode_data-value_iff}
use low_latency_event_engine.Gap.{PacketStatus, CheckResult, GapDetector, check}
use low_latency_event_engine.Gap.Accounting.{
  PacketId, IsIdentity, IsValid, check_lem, check-IsValid,
}
use low_latency_event_engine.Ring.Layout.{Memory}
use low_latency_event_engine.Ring.Ops.{try_publish}
use low_latency_event_engine.Stats.{EngineStats}
use low_latency_event_engine.Receiver.{
  Receiver, Next, count_published, count_accepted, after_check, after_decode,
}

-- The counters add up, modulo their width, but for `k` packets that are received and not yet sorted,
-- and `j` accepted events whose fate is still open. The sequences of the session are events that came
-- in, or missed packets; these do not wrap.
pub record IsBalanced (k j : ℕ) (s : EngineStats) (d : GapDetector) : Type 0 where
  pub packets :
      s.packets_received
      ≡ u64 (
          s.malformed_packets + s.duplicate_or_old_packets + s.wrong_session_packets + s.events_in
          + k)
  pub events : s.events_in ≡ u64 (s.events_out + s.egress_full + s.egress_errors + j)
  pub dropped :
      s.events_dropped
      ≡ u64 (s.duplicate_or_old_packets + s.wrong_session_packets + s.egress_full + s.egress_errors)
  pub sequences : s.events_in + s.packets_missed ≡ d.last_sequence
  pub valid : IsValid d

count_published-IsBalanced :
    (s : EngineStats) (d : GapDetector) (result : PublishResult)
    → IsBalanced 0 1 s d
    → IsBalanced 0 0 (count_published s result) d
unfolding count_published
count_published-IsBalanced s d PublishResult.ok v = record {
  packets = v.packets;
  events = omega (arith, v.events);
  dropped = v.dropped;
  sequences = v.sequences;
  valid = v.valid;
}
count_published-IsBalanced s d PublishResult.full v = record {
  packets = v.packets;
  events = omega (arith, v.events);
  dropped = omega (arith, v.dropped);
  sequences = v.sequences;
  valid = v.valid;
}
count_published-IsBalanced s d PublishResult.payload_too_large v = record {
  packets = v.packets;
  events = omega (arith, v.events);
  dropped = omega (arith, v.dropped);
  sequences = v.sequences;
  valid = v.valid;
}
count_published-IsBalanced s d PublishResult.closed v = record {
  packets = v.packets;
  events = omega (arith, v.events);
  dropped = omega (arith, v.dropped);
  sequences = v.sequences;
  valid = v.valid;
}

count_accepted-IsBalanced :
    (s : EngineStats) (d d' : GapDetector) (gap : ℕ)
    → IsBalanced 1 0 s d
    → d.last_sequence + gap + 1 ≡ d'.last_sequence
    → IsValid d'
    → IsBalanced 0 1 (count_accepted s gap) d'
unfolding count_accepted
count_accepted-IsBalanced s d d' gap v next v' = record {
  packets = omega (arith, v.packets);
  events = omega (arith, v.events);
  dropped = v.dropped;
  sequences = ground (arith, v.sequences, v'.width);
  valid = v';
}

-- What `check` has done to the detector.
abbrev IsChecked : GapDetector → GapDetector → CheckResult → Type 0
IsChecked d d' c =
    (c.status ≡ PacketStatus.accepted)
      × (d.last_sequence + c.gap + 1 ≡ d'.last_sequence)
      × IsValid d'
    ⊎ (c.status ≢ PacketStatus.accepted) × (d' ≡ d)

abbrev pub IsBalancedAfter : Next × Receiver × Memory → Type 0
IsBalancedAfter out = IsBalanced 0 0 out.1.stats out.1.gap_detector

refused-IsBalanced :
    (r : Receiver) (m : Memory) (event : EventView) (c : CheckResult) (status : PacketStatus)
    → IsBalanced 1 0 r.stats r.gap_detector
    → c.status ≡ status
    → status ≢ PacketStatus.accepted
    → IsBalancedAfter (after_check r m event c)
unfolding after_check
refused-IsBalanced r m event c PacketStatus.accepted v e other = absurd (other refl)
refused-IsBalanced r m event c PacketStatus.duplicate_or_old v e other = rw e (record {
  packets = omega (arith, v.packets);
  events = v.events;
  dropped = omega (arith, v.dropped);
  sequences = v.sequences;
  valid = v.valid;
})
refused-IsBalanced r m event c PacketStatus.wrong_session v e other = rw e (record {
  packets = omega (arith, v.packets);
  events = v.events;
  dropped = omega (arith, v.dropped);
  sequences = v.sequences;
  valid = v.valid;
})

after_check-IsBalanced :
    (r : Receiver) (m : Memory) (event : EventView) (c : CheckResult) (d : GapDetector)
    → IsBalanced 1 0 r.stats d
    → IsChecked d r.gap_detector c
    → IsBalancedAfter (after_check r m event c)
unfolding after_check
after_check-IsBalanced r m event c d v (inl (taken, next, v')) = rw taken (
    count_published-IsBalanced (count_accepted r.stats c.gap) r.gap_detector
      (try_publish r.egress m event).0
      (count_accepted-IsBalanced r.stats d r.gap_detector c.gap v next v'))
after_check-IsBalanced r m event c d v (inr (refused, same)) =
    let v' : IsBalanced 1 0 r.stats r.gap_detector = rw same v in
    refused-IsBalanced r m event c c.status v' refl refused

check-IsChecked :
    (d : GapDetector) (p : PacketId)
    → IsValid d
    → IsIdentity p
    → let (c, d') = check d p.session_id p.packet_sequence in IsChecked d d' c
check-IsChecked d p v i = elim (check_lem d p v i) [
  | inl (_, taken, d_eq) ↦ inl (taken.status, rw d_eq taken.gap, check-IsValid d p v i)
  | inr (inl (_, _, r_eq, same)) ↦ inr (rw r_eq (grind arith), same)
  | inr (inr (_, _, _, r_eq, same)) ↦ inr (rw r_eq (grind arith), same)
]

-- Only datagrams of a valid identity are decoded.
abbrev pub IsIdentified : Expected DecodedDataView DecodeError → Type 0
IsIdentified (unexpected error) = Unit
IsIdentified (value v) =
    IsIdentity (record { session_id = v.session_id; packet_sequence = v.packet_sequence })

pub decode_data-IsIdentified :
    (beyond : ℕ → ℕ) (packet : List ℕ) → IsBytes packet → IsIdentified (decode_data beyond packet)
decode_data-IsIdentified beyond packet bytes = elim (Expected-cases (decode_data beyond packet)) [
  | inl (v, e) ↦
      let (_, sendable, widths) = (decode_data-value_iff beyond packet v bytes).0 e in
      rw e (record {
        session = sendable.session;
        nonzero = sendable.packet;
        width = widths.packet_width;
      })
  | inr (_, e) ↦ rw e tt
]

pub after_decode-IsBalanced :
    (r : Receiver) (m : Memory) (decoded : Expected DecodedDataView DecodeError)
    → IsBalanced 1 0 r.stats r.gap_detector
    → IsIdentified decoded
    → IsBalancedAfter (after_decode r m decoded)
unfolding after_decode
after_decode-IsBalanced r m (unexpected error) v i = record {
  packets = omega (arith, v.packets);
  events = v.events;
  dropped = v.dropped;
  sequences = v.sequences;
  valid = v.valid;
}
after_decode-IsBalanced r m (value view) v i =
    after_check-IsBalanced
      (record r { gap_detector = (check r.gap_detector view.session_id view.packet_sequence).1 }) m
      view.event (check r.gap_detector view.session_id view.packet_sequence).0 r.gap_detector v
      (check-IsChecked r.gap_detector
        (record { session_id = view.session_id; packet_sequence = view.packet_sequence }) v.valid i)
