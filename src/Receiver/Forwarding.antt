-- ===== src/Receiver/Forwarding.antt =====
-- A datagram that arrives at the loop of src/receiver/receiver.cpp becomes an event of the egress ring.
use low_latency_event_engine.Base.{
  ℕ, ◌<◌, ◌≡◌, ◌≢◌, ◌⊎◌, inl, inr, ap, ◌∙◌, arith, true, false, List, some, length, take, copy_at,
  take-copy_at, get_or, value,
}
use low_latency_event_engine.Protocol.Types.{DecodedDataView, max_packet_bytes}
use low_latency_event_engine.Protocol.Decoder.{decode_data}
use low_latency_event_engine.Protocol.Wire.{wire_packet, IsSendable, HasWidths, length-wire_packet}
use low_latency_event_engine.Protocol.Decoding.RoundTrip.{decode_data-wire_packet}
use low_latency_event_engine.Gap.{PacketStatus, CheckResult, GapDetector, check}
use low_latency_event_engine.Gap.Accounting.{IsValid, PacketId, check_lem}
use low_latency_event_engine.Ring.Layout.{Memory}
use low_latency_event_engine.Ring.Setup.{SpscRing}
use low_latency_event_engine.Ring.Queue.{Queue}
use low_latency_event_engine.Ring.Queue
use low_latency_event_engine.Ring.Linked.{IsLinked, queue_of}
use low_latency_event_engine.Ring.Refine.Publish.{try_publish_refines}
use low_latency_event_engine.Transport.{
  SockaddrIn, Errno, returned, delivered, receive, receive_message, wait_readable,
}
use low_latency_event_engine.Stats.{incremented}
use low_latency_event_engine.Receiver.{
  Receiver, Running, Turn, Next, next_published, after_check, after_decode, after_receive, turn,
  with_stats,
}

-- The turn in which `poll` reports `ready` readable sockets and `recvmsg` delivers the packet of a view.
abbrev pub arrival : ℕ → DecodedDataView → SockaddrIn → (Memory → Memory) → Turn
arrival ready view address peer = record {
  stop = false;
  peer = peer;
  poll = record { result = returned ready; readable = true };
  recv = delivered (wire_packet view) false address;
}

-- The packet is of the detector's session and newer than all before, or the first of all.
abbrev pub IsNew : GapDetector → DecodedDataView → Type 0
IsNew d view =
    (d.active_session ≡ 0)
    ⊎ ((view.session_id ≡ d.active_session) × (d.last_sequence < view.packet_sequence))

abbrev identity : DecodedDataView → PacketId
identity view = record { session_id = view.session_id; packet_sequence = view.packet_sequence }

check-accepted :
    (d : GapDetector) (view : DecodedDataView)
    → IsValid d
    → IsSendable view
    → HasWidths view
    → IsNew d view
    → let (r, d') = check d view.session_id view.packet_sequence in
      (r.status ≡ PacketStatus.accepted)
      × (d' ≡ record { active_session = view.session_id; last_sequence = view.packet_sequence })
check-accepted d view v s w new =
    elim (check_lem d (identity view) v
      (record { session = s.session; nonzero = s.packet; width = w.packet_width })) [
        | inl (_, taken, next) ↦ (taken.status, next)
        | inr (inl (active, other, _, _)) ↦ absurd (ground (arith, active, other, new))
        | inr (inr (active, _, old, _, _)) ↦ absurd (ground (arith, active, old, new))
      ]

-- What one turn does to the ring, its queue and the detector.
abbrev Publishes :
    Receiver → Memory → SpscRing → DecodedDataView → Next × Receiver × Memory → Type 0
Publishes r m c view out =
    let (next, r', m') = out in
    let (result, q) =
      Queue.publish r.egress.slot_count r.egress.slot_payload_capacity (queue_of r.egress c m)
        view.event in
    (next ≡ next_published result)
    × (queue_of r'.egress c m' ≡ q)
    × IsLinked r'.egress c m'
    × (r'.gap_detector
        ≡ record { active_session = view.session_id; last_sequence = view.packet_sequence })

after_check-Publishes :
    (r : Receiver) (m : Memory) (c : SpscRing) (view : DecodedDataView) (checked : CheckResult)
    → checked.status ≡ PacketStatus.accepted
    → r.gap_detector
      ≡ record { active_session = view.session_id; last_sequence = view.packet_sequence }
    → IsLinked r.egress c m
    → Publishes r m c view (after_check r m view.event checked)
unfolding after_check
after_check-Publishes r m c view checked taken next linked =
    let p = try_publish_refines view.event linked in
    rw taken (ap next_published p.0, p.1, p.2, next)

after_decode-Publishes :
    (r : Receiver) (m : Memory) (c : SpscRing) (view : DecodedDataView)
    → IsSendable view
    → HasWidths view
    → IsValid r.gap_detector
    → IsNew r.gap_detector view
    → IsLinked r.egress c m
    → Publishes r m c view (after_decode r m (value view))
unfolding after_decode
after_decode-Publishes r m c view s w v new linked =
    let (taken, next) = check-accepted r.gap_detector view v s w new in
    let (checked, detector) = check r.gap_detector view.session_id view.packet_sequence in
    after_check-Publishes (record r { gap_detector = detector }) m c view checked taken next linked

module _ (errno : Errno) (packet : List ℕ) (view : DecodedDataView) (address : SockaddrIn) where
  receive-arrival :
      (ready : ℕ)
      → ready ≢ 0
      → receive errno
          (record { result = returned ready; readable = true })
          (delivered (wire_packet view) false address)
          packet
          (some 10)
        ≡ (
          value (record { size = length (wire_packet view); peer = address }),
          copy_at packet 0 (wire_packet view),
        )
  unfolding receive wait_readable receive_message
  receive-arrival ready some_ready = ground (arith, some_ready)

  decode_data-arrival :
      (beyond : ℕ → ℕ)
      → IsSendable view
      → HasWidths view
      → length packet ≡ max_packet_bytes
      → decode_data beyond (take (length (wire_packet view)) (copy_at packet 0 (wire_packet view)))
        ≡ value view
  decode_data-arrival beyond s w room =
      ap (decode_data beyond)
        (take-copy_at packet (wire_packet view) (omega (arith, length-wire_packet view, s.fits)))
      ∙ decode_data-wire_packet beyond view s w

module _ (errno : Errno) (state : Running) (c : SpscRing) (view : DecodedDataView)
    (address : SockaddrIn) (peer : Memory → Memory) where
  abbrev r : Receiver
  r = state.receiver

  -- When the packet of a sendable view arrives in the buffer, new to the detector, one turn publishes its
  -- event into the egress ring as the bounded queue does, keeps the ring's handles linked, goes on
  -- unless the ring is closed, and makes the packet the detector's last one.
  pub turn-publishes :
      (ready : ℕ)
      → ready ≢ 0
      → IsSendable view
      → HasWidths view
      → length state.packet ≡ max_packet_bytes
      → IsValid r.gap_detector
      → IsNew r.gap_detector view
      → IsLinked r.egress c (peer state.memory)
      → let (next, after) = turn errno state (arrival ready view address peer) in
        let (result, q) =
          Queue.publish r.egress.slot_count r.egress.slot_payload_capacity
            (queue_of r.egress c (peer state.memory))
            view.event in
        (next ≡ next_published result)
        × (queue_of after.receiver.egress c after.memory ≡ q)
        × IsLinked after.receiver.egress c after.memory
        × (after.receiver.gap_detector
            ≡ record { active_session = view.session_id; last_sequence = view.packet_sequence })
  unfolding turn after_receive
  turn-publishes ready some_ready s w room v new linked =
      let entered =
        with_stats r (record r.stats { packets_received = incremented r.stats.packets_received }) in
      rw
        (
          receive-arrival errno state.packet view address ready some_ready,
          decode_data-arrival errno state.packet view address
              (λ i. get_or (copy_at state.packet 0 (wire_packet view)) i 0) s w room,
        )
        (after_decode-Publishes entered (peer state.memory) c view s w v new linked)
