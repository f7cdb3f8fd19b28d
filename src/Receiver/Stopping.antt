-- ===== src/Receiver/Stopping.antt =====
-- How `Receiver::run` of src/receiver/receiver.cpp ends.
use low_latency_event_engine.Base.{
  ℕ, ◌≡◌, inl, inr, refl, ◌∙◌, arith, Bool, true, ◌||◌, Bool-cases, List, [], ◌∷◌, ◌++◌, some,
  replicate, Expected, value, unexpected, take, get_or,
}
use low_latency_event_engine.Event.{EventView}
use low_latency_event_engine.Protocol.Types.{DecodeError, DecodedDataView, max_packet_bytes}
use low_latency_event_engine.Protocol.Decoder.{decode_data}
use low_latency_event_engine.Gap.{PacketStatus, CheckResult, check}
use low_latency_event_engine.Ring.Layout.{RingState, state_value, Memory}
use low_latency_event_engine.Ring.Setup.{SpscRing}
use low_latency_event_engine.Ring.Ops.{
  try_publish, publish_refreshed, publish_slot, close_publication,
}
use low_latency_event_engine.Transport.{UdpError, ReceivedDatagram, Errno, receive}
use low_latency_event_engine.Stats.{incremented}
use low_latency_event_engine.Receiver.{
  Receiver, Running, Turn, Next, Next-cases, after_check, after_decode, receive_failed,
  after_receive, turn, finish, run_turns, run,
}

abbrev Outcome : Type 0
Outcome = Next × Receiver × Memory

-- The handle that was returned may close the ring just when the one that was given may.
abbrev KeepsOwner : Receiver → Outcome → Type 0
KeepsOwner r out = out.1.egress.initializer ≡ r.egress.initializer

try_publish-initializer :
    (p : SpscRing) (m : Memory) (e : EventView) → (try_publish p m e).1.initializer ≡ p.initializer
unfolding try_publish publish_refreshed publish_slot
try_publish-initializer p m e = ground arith

after_check-KeepsOwner :
    (r : Receiver) (m : Memory) (event : EventView) (c : CheckResult) (status : PacketStatus)
    → c.status ≡ status
    → KeepsOwner r (after_check r m event c)
unfolding after_check
after_check-KeepsOwner r m event c PacketStatus.accepted e =
    rw e (try_publish-initializer r.egress m event)
after_check-KeepsOwner r m event c PacketStatus.duplicate_or_old e = rw e refl
after_check-KeepsOwner r m event c PacketStatus.wrong_session e = rw e refl

after_decode-KeepsOwner :
    (r : Receiver) (m : Memory) (decoded : Expected DecodedDataView DecodeError)
    → KeepsOwner r (after_decode r m decoded)
unfolding after_decode
after_decode-KeepsOwner r m (unexpected error) = refl
after_decode-KeepsOwner r m (value view) =
    let checked = check r.gap_detector view.session_id view.packet_sequence in
    after_check-KeepsOwner (record r { gap_detector = checked.1 }) m view.event checked.0
      checked.0.status refl

after_receive-KeepsOwner :
    (errno : Errno) (r : Receiver) (m : Memory) (packet : List ℕ)
    (datagram : Expected ReceivedDatagram UdpError)
    → KeepsOwner r (after_receive errno r m packet datagram)
unfolding after_receive receive_failed
after_receive-KeepsOwner errno r m packet (unexpected error) = ground arith
after_receive-KeepsOwner errno r m packet (value datagram) =
    after_decode-KeepsOwner
      (record r {
        stats = record r.stats { packets_received = incremented r.stats.packets_received };
      })
      m (decode_data (λ i. get_or packet i 0) (take datagram.size packet))

turn-KeepsOwner :
    (errno : Errno) (state : Running) (t : Turn)
    → (turn errno state t).1.receiver.egress.initializer ≡ state.receiver.egress.initializer
unfolding turn
turn-KeepsOwner errno state t =
    let received = receive errno t.poll t.recv state.packet (some 10) in
    after_receive-KeepsOwner errno state.receiver (t.peer state.memory) received.1 received.0

abbrev pub IsClosed : Memory → Type 0
IsClosed m = m.header.preamble.state ≡ state_value RingState.closed

finish-IsClosed :
    (state : Running) → state.receiver.egress.initializer ≡ true → IsClosed (finish state).memory
unfolding finish close_publication
finish-IsClosed state owner = ground (arith, owner)

-- The outcome of a loop that has returned: the ring is closed.
abbrev IsOver : Bool × Running → Type 0
IsOver out = (out.0 ≡ true) × IsClosed out.1.memory

run_turns-IsOver :
    (errno : Errno) (state : Running) (before : List Turn) (t : Turn) (behind : List Turn)
    → state.receiver.egress.initializer ≡ true
    → t.stop ≡ true
    → IsOver (run_turns errno state (before ++ (t ∷ behind)))
unfolding run_turns
run_turns-IsOver errno state [] t behind owner stop =
    elim (Bool-cases (state.receiver.stop_requested || t.stop)) [
      | inl stopped ↦ rw stopped (
        refl,
        finish-IsClosed
            (record state { receiver = record state.receiver { stop_requested = true } }) owner,
      )
      | inr go ↦ absurd (grind (arith, go, stop))
    ]
run_turns-IsOver errno state (u ∷ before) t behind owner stop =
    elim (Bool-cases (state.receiver.stop_requested || u.stop)) [
      | inl stopped ↦ rw stopped (
        refl,
        finish-IsClosed
            (record state { receiver = record state.receiver { stop_requested = true } }) owner,
      )
      | inr go ↦ rw go (
          let owner' = turn-KeepsOwner errno state u ∙ owner in
          elim (Next-cases (turn errno state u).0) [
            | inl ends ↦ rw ends (refl, finish-IsClosed (turn errno state u).1 owner')
            | inr goes ↦
                rw goes (run_turns-IsOver errno (turn errno state u).1 before t behind owner' stop)
          ])
    ]

-- `run` on the ring's creator returns by the turn that sees a stop request at the latest, whatever
-- came before it, and leaves the egress ring closed, so that its consumer can finish.
pub run-stops :
    (errno : Errno) (r : Receiver) (m : Memory) (before : List Turn) (t : Turn) (behind : List Turn)
    → r.egress.initializer ≡ true
    → t.stop ≡ true
    → let (returned, state) = run errno r m (before ++ (t ∷ behind)) in
      (returned ≡ true) × (state.memory.header.preamble.state ≡ state_value RingState.closed)
unfolding run
run-stops errno r m before t behind owner stop =
    run_turns-IsOver errno
      (record { receiver = r; memory = m; packet = replicate max_packet_bytes 0 }) before t behind
      owner stop
