-- ===== src/Receiver.antt =====
-- include/lle/receiver.hpp and src/receiver/receiver.cpp: the loop that turns datagrams into events of
-- the egress ring.
pub mod Accounting
pub mod Totals
pub mod Forwarding
pub mod Samples
pub mod Startup
mod Tests
pub mod Stopping
use low_latency_event_engine.Base.{
  ℕ, ◌≡◌, ◌⊎◌, inl, inr, refl, Bool, true, false, ◌==◌, ◌||◌, ltb, if◌then◌else◌, List, [], ◌∷◌,
  some, replicate, take, get_or, add64, Expected, value, unexpected,
}
use low_latency_event_engine.Event.{EventView, PublishResult}
use low_latency_event_engine.Protocol.Types.{DecodeError, DecodedDataView, max_packet_bytes}
use low_latency_event_engine.Protocol.Decoder.{decode_data}
use low_latency_event_engine.Gap.{PacketStatus, CheckResult, GapDetector, check}
use low_latency_event_engine.Ring.Layout.{Memory}
use low_latency_event_engine.Ring.Setup.{SpscRing}
use low_latency_event_engine.Ring.Ops.{try_publish, close_publication}
use low_latency_event_engine.Transport.{
  UdpErrorCode, UdpError, ReceivedDatagram, Errno, PollReply, RecvReply, receive,
}
use low_latency_event_engine.Transport.Sockets.{UdpReceiver}
use low_latency_event_engine.Config.{ReceiverConfig}
use low_latency_event_engine.Segment.{Segment}
use low_latency_event_engine.Stats.{EngineStats, incremented}

-- `Receiver`.
pub record Receiver : Type 0 where
  pub config : ReceiverConfig
  pub segment : Segment
  pub egress : SpscRing
  pub udp : UdpReceiver
  pub stop_requested : Bool
  pub stats : EngineStats
  pub gap_detector : GapDetector

-- The receiver inside `run`, with the memory of its ring and the local buffer `packet`.
pub record Running : Type 0 where
  pub receiver : Receiver
  pub memory : Memory
  pub packet : List ℕ

-- What reaches one turn of the loop from outside: whether another thread has requested a stop, what
-- the consumer has done to the ring's memory, and what the system calls return.
pub record Turn : Type 0 where
  pub stop : Bool
  pub peer : Memory → Memory
  pub poll : PollReply
  pub recv : RecvReply

-- How a turn of the loop ends.
pub data Next : Type 0 where
  continue_loop break_loop : Next

pub Next-cases : (n : Next) → (n ≡ break_loop) ⊎ (n ≡ continue_loop)
Next-cases break_loop = inl refl
Next-cases continue_loop = inr refl

abbrev pub receive_timeout_ms : ℕ
receive_timeout_ms = 10

abbrev pub with_stats : Receiver → EngineStats → Receiver
with_stats r s = record r { stats = s }

-- The counters behind a publication.
unfoldable pub count_published : EngineStats → PublishResult → EngineStats
count_published s PublishResult.ok = record s { events_out = incremented s.events_out }
count_published s PublishResult.full = record s {
  events_dropped = incremented s.events_dropped;
  egress_full = incremented s.egress_full;
}
count_published s PublishResult.payload_too_large = record s {
  events_dropped = incremented s.events_dropped;
  egress_errors = incremented s.egress_errors;
}
count_published s PublishResult.closed = record s {
  events_dropped = incremented s.events_dropped;
  egress_errors = incremented s.egress_errors;
}

abbrev pub next_published : PublishResult → Next
next_published PublishResult.ok = continue_loop
next_published PublishResult.full = continue_loop
next_published PublishResult.payload_too_large = continue_loop
next_published PublishResult.closed = break_loop

-- The counters of an accepted packet, before its event is published.
unfoldable pub count_accepted : EngineStats → ℕ → EngineStats
count_accepted s gap = record s {
  gaps_detected = if ltb 0 gap then incremented s.gaps_detected else s.gaps_detected;
  packets_missed = if ltb 0 gap then add64 s.packets_missed gap else s.packets_missed;
  events_in = incremented s.events_in;
}

-- From `gap_detector_.check` on, behind its update of the detector.
unfoldable pub after_check : Receiver → Memory → EventView → CheckResult → Next × Receiver × Memory
after_check r m event checked = elim checked.status [
  | PacketStatus.accepted ↦
      let (published, egress, m') = try_publish r.egress m event in
      (
        next_published published,
        record r {
          egress = egress;
          stats = count_published (count_accepted r.stats checked.gap) published;
        },
        m',
      )
  | PacketStatus.duplicate_or_old ↦ (
    continue_loop,
    with_stats r (record r.stats {
      duplicate_or_old_packets = incremented r.stats.duplicate_or_old_packets;
      events_dropped = incremented r.stats.events_dropped;
    }),
    m,
  )
  | PacketStatus.wrong_session ↦ (
    continue_loop,
    with_stats r (record r.stats {
      wrong_session_packets = incremented r.stats.wrong_session_packets;
      events_dropped = incremented r.stats.events_dropped;
    }),
    m,
  )
]

-- From `decode_data` on.
unfoldable pub after_decode :
    Receiver → Memory → Expected DecodedDataView DecodeError → Next × Receiver × Memory
after_decode r m (unexpected error) = (
  continue_loop,
  with_stats r (record r.stats { malformed_packets = incremented r.stats.malformed_packets }),
  m,
)
after_decode r m (value decoded) =
    let (checked, detector) = check r.gap_detector decoded.session_id decoded.packet_sequence in
    after_check (record r { gap_detector = detector }) m decoded.event checked

abbrev is_timeout : UdpErrorCode → Bool
is_timeout UdpErrorCode.timeout = true
is_timeout other = false

abbrev is_too_large : UdpErrorCode → Bool
is_too_large UdpErrorCode.datagram_too_large = true
is_too_large other = false

-- The branch of the loop where `receive` fails.
unfoldable pub receive_failed : Errno → Receiver → UdpError → Next × Receiver
receive_failed errno r error =
    if is_timeout error.code || error.error_number == errno.eintr
    then (continue_loop, r)
    else if is_too_large error.code
    then (
      continue_loop,
      with_stats r (record r.stats {
        packets_received = incremented r.stats.packets_received;
        malformed_packets = incremented r.stats.malformed_packets;
      }),
    )
    else (
      break_loop,
      with_stats r (record r.stats { receive_errors = incremented r.stats.receive_errors }),
    )

-- From `receive` on, with the buffer as it is then.
unfoldable pub after_receive :
    Errno
    → Receiver
    → Memory
    → List ℕ
    → Expected ReceivedDatagram UdpError
    → Next × Receiver × Memory
after_receive errno r m packet (unexpected error) =
    let (next, r') = receive_failed errno r error in (next, r', m)
after_receive errno r m packet (value datagram) =
    after_decode
      (with_stats r (record r.stats { packets_received = incremented r.stats.packets_received })) m
      (decode_data (λ i. get_or packet i 0) (take datagram.size packet))

-- One turn of the loop, once the stop flag is seen clear.
unfoldable pub turn : Errno → Running → Turn → Next × Running
turn errno state t =
    let (datagram, packet) = receive errno t.poll t.recv state.packet (some receive_timeout_ms) in
    let (next, r, m) = after_receive errno state.receiver (t.peer state.memory) packet datagram in
    (next, record { receiver = r; memory = m; packet = packet })

-- The end of `run`.
unfoldable pub finish : Running → Running
finish state = record state { memory = (close_publication state.receiver.egress state.memory).1 }

-- `Receiver::run` over the turns that reach it: whether it has returned, and the state it leaves.
unfoldable pub run_turns : Errno → Running → List Turn → Bool × Running
run_turns errno state [] = (false, state)
run_turns errno state (t ∷ ts) =
    if state.receiver.stop_requested || t.stop
    then (
      true,
      finish (record state { receiver = record state.receiver { stop_requested = true } }),
    )
    else let (next, state') = turn errno state t in
      elim next [ break_loop ↦ (true, finish state') | continue_loop ↦ run_turns errno state' ts ]

-- `Receiver::run`, from its empty buffer on.
unfoldable pub run : Errno → Receiver → Memory → List Turn → Bool × Running
run errno r m turns =
    run_turns errno (record { receiver = r; memory = m; packet = replicate max_packet_bytes 0 })
      turns
