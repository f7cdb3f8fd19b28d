-- ===== src/Receiver/Startup/Lifetime.antt =====
-- The whole life of a receiver of src/receiver/receiver.cpp: start, run and destruction.
use low_latency_event_engine.Base.{
  ◌≡◌, inl, inr, refl, sym, ap₂, ◌∙◌, arith, ◌||◌, Bool-cases, if◌then◌else◌, List, [], ◌∷◌, ◌++◌,
  ℕ, none, some, replicate, take, get_or, Expected, value, unexpected,
}
use low_latency_event_engine.Event.{EventView}
use low_latency_event_engine.Protocol.Types.{DecodeError, DecodedDataView, max_packet_bytes}
use low_latency_event_engine.Protocol.Decoder.{decode_data}
use low_latency_event_engine.Gap.{PacketStatus, CheckResult, check}
use low_latency_event_engine.Config.{ReceiverConfig}
use low_latency_event_engine.Os.{Call}
use low_latency_event_engine.Os.Ledger.{
  opens, closes, maps, creates, unmap_results, unlink_results, answered, IsTidy,
}
use low_latency_event_engine.Ring.Layout.{Memory}
use low_latency_event_engine.Segment.{Segment}
use low_latency_event_engine.Segment.Lifetime.{unlink, destroy_segment}
use low_latency_event_engine.Startup.{Platform, Started}
use low_latency_event_engine.Stats.{incremented}
use low_latency_event_engine.Transport.{UdpError, ReceivedDatagram, Errno, receive}
use low_latency_event_engine.Transport.Sockets.{UdpReceiver, close_socket}
use low_latency_event_engine.Receiver.{
  Receiver, Running, Turn, Next-cases, after_check, after_decode, receive_failed, after_receive,
  turn, finish, run_turns, run,
}
use low_latency_event_engine.Receiver.Startup.{ReceiverReplies, Result, initialize}
use low_latency_event_engine.Receiver.Startup.Shutdown.{retire, destroy_engine}
use low_latency_event_engine.Receiver.Startup.Cleanup.{
  Ending, destruction, EndsSettled, initialize-EndsSettled,
}

-- One receiver holds what the other does.
abbrev SameHoldings : Receiver → Receiver → Type 0
SameHoldings s r = (s.segment ≡ r.segment) × (s.udp ≡ r.udp)

after_check-SameHoldings :
    (r : Receiver) (m : Memory) (event : EventView) (c : CheckResult) (status : PacketStatus)
    → c.status ≡ status
    → SameHoldings (after_check r m event c).1 r
unfolding after_check
after_check-SameHoldings r m event c PacketStatus.accepted e = rw e (refl, refl)
after_check-SameHoldings r m event c PacketStatus.duplicate_or_old e = rw e (refl, refl)
after_check-SameHoldings r m event c PacketStatus.wrong_session e = rw e (refl, refl)

after_decode-SameHoldings :
    (r : Receiver) (m : Memory) (decoded : Expected DecodedDataView DecodeError)
    → SameHoldings (after_decode r m decoded).1 r
unfolding after_decode
after_decode-SameHoldings r m (unexpected error) = (refl, refl)
after_decode-SameHoldings r m (value view) =
    let checked = check r.gap_detector view.session_id view.packet_sequence in
    after_check-SameHoldings (record r { gap_detector = checked.1 }) m view.event checked.0
      checked.0.status refl

after_receive-SameHoldings :
    (errno : Errno) (r : Receiver) (m : Memory) (packet : List ℕ)
    (datagram : Expected ReceivedDatagram UdpError)
    → SameHoldings (after_receive errno r m packet datagram).1 r
unfolding after_receive receive_failed
after_receive-SameHoldings errno r m packet (unexpected error) = ground arith
after_receive-SameHoldings errno r m packet (value datagram) =
    after_decode-SameHoldings
      (record r {
        stats = record r.stats { packets_received = incremented r.stats.packets_received };
      })
      m (decode_data (λ i. get_or packet i 0) (take datagram.size packet))

turn-SameHoldings :
    (errno : Errno) (state : Running) (t : Turn)
    → SameHoldings (turn errno state t).1.receiver state.receiver
unfolding turn
turn-SameHoldings errno state t =
    let received = receive errno t.poll t.recv state.packet (some 10) in
    after_receive-SameHoldings errno state.receiver (t.peer state.memory) received.1 received.0

run_turns-SameHoldings :
    (errno : Errno) (state : Running) (ts : List Turn)
    → SameHoldings (run_turns errno state ts).1.receiver state.receiver
unfolding run_turns finish
run_turns-SameHoldings errno state [] = (refl, refl)
run_turns-SameHoldings errno state (t ∷ ts) =
    elim (Bool-cases (state.receiver.stop_requested || t.stop)) [
      | inl stopped ↦ rw stopped (refl, refl)
      | inr go ↦ rw go (elim (Next-cases (turn errno state t).0) [
        | inl ends ↦ rw ends (turn-SameHoldings errno state t)
        | inr goes ↦
            let (segment, udp) = run_turns-SameHoldings errno (turn errno state t).1 ts in
            let (segment', udp') = turn-SameHoldings errno state t in
            rw goes (segment ∙ segment', udp ∙ udp')
      ])
    ]

-- The calls of the destructor, which depend on nothing but what the receiver holds.
ending_calls : Ending → Segment → UdpReceiver → List Call
ending_calls e segment udp =
    if segment.owner
    then (let (_, segment', calls) = unlink e.errno e.shm_unlink segment in
        calls ++ close_socket udp.socket_fd ++ destroy_segment e.munmap e.close segment')
    else [] ++ close_socket udp.socket_fd ++ destroy_segment e.munmap e.close segment

destruction-calls :
    (e : Ending) (s : Receiver) (m : Memory) → destruction e s m ≡ ending_calls e s.segment s.udp
unfolding destroy_engine retire ending_calls
destruction-calls e s m = ground arith

destruction-SameHoldings :
    (e : Ending) (s r : Receiver) (m m' : Memory)
    → SameHoldings s r
    → destruction e s m ≡ destruction e r m'
destruction-SameHoldings e s r m m' (segment, udp) =
    destruction-calls e s m ∙ ap₂ (ending_calls e) segment udp ∙ sym (destruction-calls e r m')

-- A start that fails, or one that succeeds with a run over any turns and then the destruction.
abbrev pub LivesSettled : Ending → ReceiverReplies → Errno → List Turn → Started Result → Type 0
LivesSettled e r errno ts none = Unit {0}
LivesSettled e r errno ts (some ((unexpected error, m), calls)) =
    IsTidy r.munmap r.segment.shm_unlink calls
LivesSettled e r errno ts (some ((value s, m), calls)) =
    let (_, state) = run errno s m ts in
    let all_calls = calls ++ destruction e state.receiver state.memory in
    (closes all_calls ≡ opens all_calls)
    × (unmap_results all_calls ≡ answered e.munmap (maps all_calls))
    × (unlink_results all_calls ≡ answered e.shm_unlink (creates all_calls))

lives :
    (e : Ending) (r : ReceiverReplies) (errno : Errno) (ts : List Turn) (started : Started Result)
    → EndsSettled e r started
    → LivesSettled e r errno ts started
unfolding run
lives e r errno ts none v = tt
lives e r errno ts (some ((unexpected error, m), calls)) v = v
lives e r errno ts (some ((value s, m), calls)) v =
    let state : Running = record {
      receiver = s;
      memory = m;
      packet = replicate max_packet_bytes 0;
    } in
    let after = (run_turns errno state ts).1 in
    rw
      (destruction-SameHoldings e after.receiver s after.memory m
        (run_turns-SameHoldings errno state ts))
      v

-- Whatever the system calls return, a receiver whose start fails, at whichever step, has made one
-- `close` call on each descriptor that it has opened, in the reverse order, one `munmap` call on the
-- memory that it has mapped and one `shm_unlink` call on the name that it has created, and no other
-- such call. A start that succeeds, a run of the loop over any turns and the destruction of the
-- receiver do the same, but that the descriptors are closed in the order in which they were opened,
-- the socket first. The `munmap` and `shm_unlink` calls are given with their replies: memory stays
-- mapped or a name stays only where that one call fails.
pub initialize-LivesSettled :
    (e : Ending) (errno : Errno) (ts : List Turn) (p : Platform) (r : ReceiverReplies)
    (contents : Memory) (config : ReceiverConfig)
    → LivesSettled e r errno ts (initialize p r contents config)
initialize-LivesSettled e errno ts p r contents config =
    lives e r errno ts (initialize p r contents config)
      (initialize-EndsSettled e p r contents config)
