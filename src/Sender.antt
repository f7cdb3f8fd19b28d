-- ===== src/Sender.antt =====
-- include/lle/sender.hpp and src/sender/sender.cpp: the loop that turns events of the ingress ring
-- into datagrams. The pause of an idle turn has no effect on the state and is left out.
pub mod Accounting
pub mod Forwarding
pub mod Samples
pub mod Startup
pub mod Stopping
mod Tests
use low_latency_event_engine.Base.{
  ℕ, ◌+◌, Bool, true, false, ◌==◌, ◌||◌, if◌then◌else◌, List, [], ◌∷◌, ◌++◌, Option, none, some,
  take, u64_max, Expected, value, unexpected, replicate, ◌≡◌, ◌⊎◌, inl, inr, refl,
}
use low_latency_event_engine.Event.{EventView}
use low_latency_event_engine.Config.{SenderConfig}
use low_latency_event_engine.Segment.{Segment}
use low_latency_event_engine.Protocol.Types.{EncodeError}
use low_latency_event_engine.Protocol.Encoder.{encode_data}
use low_latency_event_engine.Ring.Layout.{Memory}
use low_latency_event_engine.Ring.Setup.{SpscRing}
use low_latency_event_engine.Ring.Ops.{AcquireError, try_acquire, release}
use low_latency_event_engine.Transport.{UdpError, SockaddrIn, Reply, send_to}
use low_latency_event_engine.Transport.Sockets.{UdpSender}
use low_latency_event_engine.Stats.{EngineStats, incremented}

-- `Sender`.
pub record Sender : Type 0 where
  pub config : SenderConfig
  pub segment : Segment
  pub ingress : SpscRing
  pub udp : UdpSender
  pub destinations : List SockaddrIn
  pub session_id : ℕ
  pub packet_sequence : ℕ
  pub stop_requested : Bool
  pub stats : EngineStats

-- A call of `sendto`: the bytes and the address.
pub record Sent : Type 0 where
  pub datagram : List ℕ
  pub destination : SockaddrIn

-- The sender inside `run`, with the memory of its ring, the local buffer `output`, and the calls of
-- `sendto` so far.
pub record Running : Type 0 where
  pub sender : Sender
  pub memory : Memory
  pub output : List ℕ
  pub sent : List Sent

-- What reaches one turn of the loop from outside: whether another thread has requested a stop, what
-- the producer has done to the ring's memory, and what `sendto` returns for each destination.
pub record Turn : Type 0 where
  pub stop : Bool
  pub peer : Memory → Memory
  pub replies : ℕ → Reply

-- How a turn of the loop ends.
pub data Next : Type 0 where
  continue_loop break_loop : Next

-- The local state of the loop over the destinations.
pub record Sending : Type 0 where
  pub stats : EngineStats
  pub sent_to_any : Bool
  pub sent : List Sent

-- One destination.
unfoldable pub send_one : Option UdpError → Sent → Sending → Sending
send_one none call s = record {
  stats = record s.stats { packets_sent = incremented s.stats.packets_sent };
  sent_to_any = true;
  sent = s.sent ++ (call ∷ []);
}
send_one (some error) call s = record {
  stats = record s.stats { send_errors = incremented s.stats.send_errors };
  sent_to_any = s.sent_to_any;
  sent = s.sent ++ (call ∷ []);
}

-- The loop over the destinations, from the `i`-th on.
unfoldable pub send_all : (ℕ → Reply) → ℕ → List ℕ → List SockaddrIn → Sending → Sending
send_all replies i datagram [] s = s
send_all replies i datagram (d ∷ ds) s =
    send_all replies (i + 1) datagram ds
      (send_one (send_to (replies i) datagram) (record { datagram = datagram; destination = d }) s)

-- The counters behind the loop over the destinations.
unfoldable pub count_event : EngineStats → Bool → EngineStats
count_event s sent_to_any =
    if sent_to_any
    then record s { events_out = incremented s.events_out }
    else record s { events_dropped = incremented s.events_dropped }

-- The end of a turn whose event was encoded: the next sequence, or the end of the session.
unfoldable pub advance : Sender → Next × Sender
advance s =
    if s.packet_sequence == u64_max
    then (break_loop, record s { stop_requested = true })
    else (continue_loop, record s { packet_sequence = incremented s.packet_sequence })

-- From the result of `encode_data` on.
unfoldable pub after_encode :
    Turn → Sender → Memory → List ℕ → List Sent → Expected ℕ EncodeError → Next × Running
after_encode t s m output sent (unexpected error) = (
  continue_loop,
  record {
    sender = record s {
      stats = record s.stats {
        encode_errors = incremented s.stats.encode_errors;
        events_dropped = incremented s.stats.events_dropped;
      };
    };
    memory = m;
    output = output;
    sent = sent;
  },
)
after_encode t s m output sent (value encoded) =
    let done =
      send_all t.replies 0 (take encoded output) s.destinations
        (record { stats = s.stats; sent_to_any = false; sent = sent }) in
    let (next, s') = advance (record s { stats = count_event done.stats done.sent_to_any }) in
    (next, record { sender = s'; memory = m; output = output; sent = done.sent })

-- The branch of the loop where nothing is acquired.
unfoldable pub acquire_failed : Sender → AcquireError → Next × Sender
acquire_failed s AcquireError.empty = (continue_loop, s)
acquire_failed s AcquireError.closed = (break_loop, s)
acquire_failed s AcquireError.already_acquired = (
  break_loop,
  record s { stats = record s.stats { ingress_errors = incremented s.stats.ingress_errors } },
)
acquire_failed s AcquireError.invalid_slot_error = (
  break_loop,
  record s { stats = record s.stats { ingress_errors = incremented s.stats.ingress_errors } },
)

-- From the result of `try_acquire` on, with the handle as it is then.
unfoldable pub after_acquire :
    Turn → Sender → Memory → List ℕ → List Sent → Expected EventView AcquireError → Next × Running
after_acquire t s m output sent (unexpected error) =
    let (next, s') = acquire_failed s error in
    (next, record { sender = s'; memory = m; output = output; sent = sent })
after_acquire t s m output sent (value event) =
    let (encoded, output') = encode_data event s.session_id s.packet_sequence output in
    let (_, ingress, m') = release s.ingress m in
    after_encode t
      (record s {
        ingress = ingress;
        stats = record s.stats { events_in = incremented s.stats.events_in };
      })
      m' output' sent encoded

-- One turn of the loop, once the stop flag is seen clear.
unfoldable pub turn : Running → Turn → Next × Running
turn state t =
    let m = t.peer state.memory in
    let (event, ingress) = try_acquire state.sender.ingress m in
    after_acquire t (record state.sender { ingress = ingress }) m state.output state.sent event

-- `Sender::run` over the turns that reach it: whether it has returned, and the state it leaves.
unfoldable pub run_turns : Running → List Turn → Bool × Running
run_turns state [] = (false, state)
run_turns state (t ∷ ts) =
    if state.sender.stop_requested || t.stop
    then (true, record state { sender = record state.sender { stop_requested = true } })
    else let (next, state') = turn state t in
      elim next [ break_loop ↦ (true, state') | continue_loop ↦ run_turns state' ts ]

-- `Sender::run`, from its empty buffer on.
unfoldable pub run : Sender → Memory → List Turn → Bool × Running
run s m turns =
    run_turns
      (record {
        sender = s;
        memory = m;
        output = replicate s.config.max_datagram_bytes 0;
        sent = [];
      })
      turns

pub Next-cases : (n : Next) → (n ≡ break_loop) ⊎ (n ≡ continue_loop)
Next-cases break_loop = inl refl
Next-cases continue_loop = inr refl
