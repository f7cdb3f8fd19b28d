-- ===== src/Engine.antt =====
-- The two loops together: src/sender/sender.cpp on one host, src/receiver/receiver.cpp on another, and
-- a network that delivers a datagram as it was sent.
mod Tests
use low_latency_event_engine.Base.{
  ℕ, ◌+◌, ◌<◌, ◌≤◌, ◌≡◌, ◌≢◌, ◌^◌, refl, arith, true, false, List, [], ◌∷◌, ◌++◌, length, All, drop,
  drop_left,
}
use low_latency_event_engine.Event.{EventView}
use low_latency_event_engine.Protocol.Types.{DecodedDataView, max_packet_bytes}
use low_latency_event_engine.Protocol.Wire.{wire_packet, wire_size, IsSendable, HasWidths}
use low_latency_event_engine.Gap.Accounting.{IsValid}
use low_latency_event_engine.Ring.Layout.{Memory}
use low_latency_event_engine.Ring.Setup.{SpscRing}
use low_latency_event_engine.Ring.Queue
use low_latency_event_engine.Ring.Linked.{IsLinked, queue_of}
use low_latency_event_engine.Transport.{SockaddrIn, Errno, returned, delivered}
use low_latency_event_engine.Sender.{Sent}
use low_latency_event_engine.Sender
use low_latency_event_engine.Sender.Forwarding.{
  outgoing, calls, length-calls, without_oldest, turn-sends,
}
use low_latency_event_engine.Receiver
use low_latency_event_engine.Receiver.Forwarding.{IsNew, turn-publishes}

-- The turn of a receiver that is given a datagram.
abbrev pub carrying : ℕ → Sent → SockaddrIn → (Memory → Memory) → Receiver.Turn
carrying ready call address peer = record {
  stop = false;
  peer = peer;
  poll = record { result = returned ready; readable = true };
  recv = delivered call.datagram false address;
}

module _ (errno : Errno) (r : Receiver.Running) (c : SpscRing) (ready : ℕ) (address : SockaddrIn)
    (peer : Memory → Memory) where
  -- The receiver publishes the event when it is given the datagram of a call of `sendto`.
  abbrev pub Publishes : EventView → Sent → Type 0
  Publishes e call =
      let (_, after) = Receiver.turn errno r (carrying ready call address peer) in
      (queue_of after.receiver.egress c after.memory
        ≡ (Queue.publish r.receiver.egress.slot_count r.receiver.egress.slot_payload_capacity
            (queue_of r.receiver.egress c (peer r.memory)) e).1)
      × IsLinked after.receiver.egress c after.memory

  -- The receiver is between two turns, new to the packet of the view.
  pub record IsReady (view : DecodedDataView) : Type 0 where
    pub some_ready : ready ≢ 0
    pub room : length r.packet ≡ max_packet_bytes
    pub valid : IsValid r.receiver.gap_detector
    pub is_new : IsNew r.receiver.gap_detector view
    pub linked : IsLinked r.receiver.egress c (peer r.memory)

  calls-Publishes :
      (view : DecodedDataView) (ds : List SockaddrIn)
      → IsSendable view
      → HasWidths view
      → IsReady view
      → All (Publishes view.event) (calls (wire_packet view) ds)
  calls-Publishes view [] i w v = tt
  calls-Publishes view (d ∷ ds) i w v =
      let p =
        turn-publishes errno r c view address peer ready v.some_ready i w v.room v.valid v.is_new
          v.linked in
      ((p.1, p.2), calls-Publishes view ds i w v)

-- What the sender needs to send the oldest event of its ring.
pub record Offers (p : SpscRing) (state : Sender.Running) (t : Sender.Turn) (e : EventView)
    (rest : List EventView) : Type 0 where
  pub linked : IsLinked p state.sender.ingress (t.peer state.memory)
  pub oldest : (queue_of p state.sender.ingress (t.peer state.memory)).items ≡ e ∷ rest
  pub idle : state.sender.ingress.acquired ≡ false
  pub sendable : IsSendable (outgoing state.sender e)
  pub widths : HasWidths (outgoing state.sender e)
  pub room : wire_size (length e.payload) ≤ length state.output
  pub more : state.sender.packet_sequence + 1 < 2 ^ 64

-- A sender whose oldest event may be sent makes in one turn one call of `sendto` for each
-- destination, and a receiver that is given the datagram of any of these calls, and to which the
-- packet is new, publishes that very event into its egress ring as the bounded queue does.
pub crossing :
    (p : SpscRing) (state : Sender.Running) (t : Sender.Turn) (e : EventView)
    (rest : List EventView) (errno : Errno) (r : Receiver.Running) (c : SpscRing) (ready : ℕ)
    (address : SockaddrIn) (peer : Memory → Memory)
    → Offers p state t e rest
    → IsReady errno r c ready address peer (outgoing state.sender e)
    → let (_, after) = Sender.turn state t in
      let new = drop (length state.sent) after.sent in
      (length new ≡ length state.sender.destinations)
      × All (Publishes errno r c ready address peer e) new
crossing p state t e rest errno r c ready address peer o v =
    let view = outgoing state.sender e in
    let sends =
      turn-sends p state t e rest o.linked o.oldest o.idle o.sendable o.widths o.room o.more in
    let ds = state.sender.destinations in
    rw (sends.1, drop_left state.sent (calls (wire_packet view) ds))
      (
        length-calls (wire_packet view) ds,
        calls-Publishes errno r c ready address peer view ds o.sendable o.widths v,
      )
