-- ===== src/Receiver/Totals.antt =====
-- The counters at the end of `Receiver::run` of src/receiver/receiver.cpp.
use low_latency_event_engine.Base.{
  ℕ, ◌≤◌, ◌≡◌, inl, inr, refl, ◌∙◌, arith, true, false, ◌||◌, Bool-cases, List, [], ◌∷◌, some, none,
  All, length, take, replicate, length-replicate, take-copy_at, length-copy_at, get_or,
  Option-cases, ◌==◌, value, unexpected,
}
use low_latency_event_engine.Protocol.Types.{max_packet_bytes}
use low_latency_event_engine.Protocol.Decoder.{decode_data}
use low_latency_event_engine.Protocol.Wire.{IsBytes}
use low_latency_event_engine.Gap.{new_detector}
use low_latency_event_engine.Gap.Accounting.{new_detector-IsValid}
use low_latency_event_engine.Ring.Layout.{Memory}
use low_latency_event_engine.Transport.{
  UdpError, Errno, PollReply, RecvReply, recv_failed, delivered, Received, receive, receive_message,
  wait_readable,
}
use low_latency_event_engine.Stats.{no_stats, incremented}
use low_latency_event_engine.Receiver.{
  Receiver, Running, Turn, receive_failed, after_receive, turn, Next-cases, finish, run_turns, run,
  is_timeout, is_too_large,
}
use low_latency_event_engine.Receiver.Accounting.{
  IsBalanced, IsBalancedAfter, decode_data-IsIdentified, after_decode-IsBalanced,
}

-- `recvmsg` puts bytes into the buffer, at most as many as it holds.
abbrev pub IsRecvReply : RecvReply → Type 0
IsRecvReply (recv_failed errno) = Unit
IsRecvReply (delivered bytes truncated peer) = IsBytes bytes × (length bytes ≤ max_packet_bytes)

abbrev pub IsTurn : Turn → Type 0
IsTurn t = IsRecvReply t.recv

-- What `receive` leaves: the buffer keeps its size, and a datagram in it consists of bytes.
abbrev IsDelivery : Received → Type 0
IsDelivery (unexpected error, buffer) = length buffer ≡ max_packet_bytes
IsDelivery (value d, buffer) = (length buffer ≡ max_packet_bytes) × IsBytes (take d.size buffer)

receive_message-IsDelivery :
    (reply : RecvReply) (buffer : List ℕ)
    → IsRecvReply reply
    → length buffer ≡ max_packet_bytes
    → IsDelivery (receive_message reply buffer)
unfolding receive_message
receive_message-IsDelivery (recv_failed errno) buffer i size = size
receive_message-IsDelivery (delivered bytes true peer) buffer i size =
    length-copy_at buffer 0 bytes ∙ size
receive_message-IsDelivery (delivered bytes false peer) buffer (is, fits) size =
    (length-copy_at buffer 0 bytes ∙ size, rw (take-copy_at buffer bytes (omega arith)) is)

receive-IsDelivery :
    (errno : Errno) (poll : PollReply) (reply : RecvReply) (buffer : List ℕ)
    → IsRecvReply reply
    → length buffer ≡ max_packet_bytes
    → IsDelivery (receive errno poll reply buffer (some 10))
receive-IsDelivery errno poll reply buffer i size = elim (Option-cases (wait_readable errno poll)) [
  | inl e ↦ rw (ready e) (receive_message-IsDelivery reply buffer i size)
  | inr (error, e) ↦ rw (failed error e) size
]
  where
    ready :
        wait_readable errno poll ≡ none
        → receive errno poll reply buffer (some 10) ≡ receive_message reply buffer
    ready e = unfold receive in ground (arith, e)

    failed :
        (error : UdpError)
        → wait_readable errno poll ≡ some error
        → receive errno poll reply buffer (some 10) ≡ (unexpected error, buffer)
    failed error e = unfold receive in ground (arith, e)

receive_failed-IsBalanced :
    (errno : Errno) (r : Receiver) (m : Memory) (error : UdpError)
    → IsBalanced 0 0 r.stats r.gap_detector
    → IsBalancedAfter ((receive_failed errno r error).0, (receive_failed errno r error).1, m)
unfolding receive_failed
receive_failed-IsBalanced errno r m error v =
    elim (Bool-cases (is_timeout error.code || error.error_number == errno.eintr)) [
      | inl again ↦ rw again v
      | inr other ↦ rw other (elim (Bool-cases (is_too_large error.code)) [
        | inl large ↦ rw large (record {
          packets = omega (arith, v.packets);
          events = v.events;
          dropped = v.dropped;
          sequences = v.sequences;
          valid = v.valid;
        })
        | inr broken ↦ rw broken (record {
          packets = v.packets;
          events = v.events;
          dropped = v.dropped;
          sequences = v.sequences;
          valid = v.valid;
        })
      ])
    ]

after_receive-IsBalanced :
    (errno : Errno) (r : Receiver) (m : Memory) (received : Received)
    → IsDelivery received
    → IsBalanced 0 0 r.stats r.gap_detector
    → IsBalancedAfter (after_receive errno r m received.1 received.0)
unfolding after_receive
after_receive-IsBalanced errno r m (unexpected error, packet) d v =
    receive_failed-IsBalanced errno r m error v
after_receive-IsBalanced errno r m (value datagram, packet) (_, bytes) v =
    after_decode-IsBalanced
      (record r {
        stats = record r.stats { packets_received = incremented r.stats.packets_received };
      })
      m (decode_data (λ i. get_or packet i 0) (take datagram.size packet))
      (record {
        packets = omega (arith, v.packets);
        events = v.events;
        dropped = v.dropped;
        sequences = v.sequences;
        valid = v.valid;
      })
      (decode_data-IsIdentified (λ i. get_or packet i 0) (take datagram.size packet) bytes)

-- What holds of the receiver between the turns of its loop.
pub record IsRunning (state : Running) : Type 0 where
  pub balanced : IsBalanced 0 0 state.receiver.stats state.receiver.gap_detector
  pub room : length state.packet ≡ max_packet_bytes

IsDelivery-room : (received : Received) → IsDelivery received → length received.1 ≡ max_packet_bytes
IsDelivery-room (unexpected error, buffer) d = d
IsDelivery-room (value datagram, buffer) d = d.0

turn-IsRunning :
    (errno : Errno) (state : Running) (t : Turn)
    → IsTurn t
    → IsRunning state
    → IsRunning (turn errno state t).1
unfolding turn
turn-IsRunning errno state t i v =
    let received = receive errno t.poll t.recv state.packet (some 10) in
    let d : IsDelivery received = receive-IsDelivery errno t.poll t.recv state.packet i v.room in
    record {
      balanced =
          after_receive-IsBalanced errno state.receiver (t.peer state.memory) received d v.balanced;
      room = IsDelivery-room received d;
    }

run_turns-IsRunning :
    (errno : Errno) (state : Running) (turns : List Turn)
    → All IsTurn turns
    → IsRunning state
    → IsRunning (run_turns errno state turns).1
unfolding run_turns finish
run_turns-IsRunning errno state [] is v = v
run_turns-IsRunning errno state (t ∷ ts) (i, is) v =
    elim (Bool-cases (state.receiver.stop_requested || t.stop)) [
      | inl stopped ↦ rw stopped (record { balanced = v.balanced; room = v.room })
      | inr go ↦ rw go (
          let v' = turn-IsRunning errno state t i v in
          elim (Next-cases (turn errno state t).0) [
            | inl ends ↦ rw ends (record { balanced = v'.balanced; room = v'.room })
            | inr goes ↦ rw goes (run_turns-IsRunning errno (turn errno state t).1 ts is v')
          ])
    ]

-- However `run` of a receiver with clear counters and a new detector goes, whatever the system calls
-- return and the consumer does, its counters add up modulo their width: every received packet is
-- malformed, a duplicate, of another session or an event that came in; every event that came in went
-- out or met a full or failing ring; and events that came in and missed packets are, exactly, the
-- sequences up to the last accepted one. `recvmsg` is assumed to stay within the buffer.
pub run-IsBalanced :
    (errno : Errno) (r : Receiver) (m : Memory) (turns : List Turn)
    → All IsTurn turns
    → r.stats ≡ no_stats
    → r.gap_detector ≡ new_detector
    → let final = (run errno r m turns).1.receiver in IsBalanced 0 0 final.stats final.gap_detector
unfolding run
run-IsBalanced errno r m turns is fresh clear =
    (run_turns-IsRunning errno
      (record { receiver = r; memory = m; packet = replicate max_packet_bytes 0 }) turns is
      (record {
        balanced =
            rw (fresh, clear)
              (record {
                packets = refl;
                events = refl;
                dropped = refl;
                sequences = refl;
                valid = new_detector-IsValid;
              });
        room = length-replicate {A = ℕ} max_packet_bytes 0;
      })).balanced
