-- ===== src/Sender/Accounting.antt =====
-- The counters of src/sender/sender.cpp account for every event and every call of `sendto`.
use low_latency_event_engine.Base.{
  ℕ, ◌+◌, ◌<◌, ◌≡◌, ◌≢◌, ◌^◌, inl, inr, refl, arith, Bool, true, false, ◌||◌, Bool-cases, List, [],
  ◌∷◌, Option, none, some, length, length-append, take, replicate, u64, Expected, value, unexpected,
}
use low_latency_event_engine.Event.{EventView}
use low_latency_event_engine.Protocol.Types.{EncodeError}
use low_latency_event_engine.Protocol.Encoder.{encode_data}
use low_latency_event_engine.Ring.Layout.{Memory}
use low_latency_event_engine.Ring.Ops.{AcquireError, try_acquire, release}
use low_latency_event_engine.Transport.{UdpError, SockaddrIn, Reply, send_to}
use low_latency_event_engine.Stats.{EngineStats, incremented, no_stats}
use low_latency_event_engine.Sender.{
  Sender, Sent, Running, Turn, Next-cases, Sending, send_one, send_all, count_event, advance,
  after_encode, acquire_failed, after_acquire, turn, run_turns, run,
}

-- The counters add up, modulo their width, but for `j` events whose fate is still open.
pub record IsBalanced (j : ℕ) (s : EngineStats) (sent : List Sent) : Type 0 where
  pub events : s.events_in ≡ u64 (s.events_out + s.events_dropped + j)
  pub sends : u64 (length sent) ≡ u64 (s.packets_sent + s.send_errors)

-- The sequence of the next packet is valid.
pub record IsSequenced (s : Sender) : Type 0 where
  pub nonzero : s.packet_sequence ≢ 0
  pub width : s.packet_sequence < 2 ^ 64

-- What holds of the sender between the turns of its loop.
pub record IsRunning (state : Running) : Type 0 where
  pub balanced : IsBalanced 0 state.sender.stats state.sent
  pub sequenced : IsSequenced state.sender

send_one-IsBalanced :
    (j : ℕ) (result : Option UdpError) (call : Sent) (s : Sending)
    → IsBalanced j s.stats s.sent
    → let s' = send_one result call s in IsBalanced j s'.stats s'.sent
unfolding send_one
send_one-IsBalanced j none call s v = record {
  events = v.events;
  sends = omega (arith, v.sends, length-append s.sent (call ∷ []));
}
send_one-IsBalanced j (some error) call s v = record {
  events = v.events;
  sends = omega (arith, v.sends, length-append s.sent (call ∷ []));
}

send_all-IsBalanced :
    (j : ℕ) (replies : ℕ → Reply) (i : ℕ) (datagram : List ℕ) (ds : List SockaddrIn) (s : Sending)
    → IsBalanced j s.stats s.sent
    → let s' = send_all replies i datagram ds s in IsBalanced j s'.stats s'.sent
unfolding send_all
send_all-IsBalanced j replies i datagram [] s v = v
send_all-IsBalanced j replies i datagram (d ∷ ds) s v =
    let call : Sent = record { datagram = datagram; destination = d } in
    send_all-IsBalanced j replies (i + 1) datagram ds
      (send_one (send_to (replies i) datagram) call s)
      (send_one-IsBalanced j (send_to (replies i) datagram) call s v)

count_event-IsBalanced :
    (s : EngineStats) (sent : List Sent) (any : Bool)
    → IsBalanced 1 s sent
    → IsBalanced 0 (count_event s any) sent
unfolding count_event
count_event-IsBalanced s sent true v = record { events = omega (arith, v.events); sends = v.sends }
count_event-IsBalanced s sent false v = record { events = omega (arith, v.events); sends = v.sends }

advance-IsSequenced : (s : Sender) → IsSequenced s → IsSequenced (advance s).1
unfolding advance
advance-IsSequenced s v = ground (arith, v.nonzero, v.width)

advance-stats : (s : Sender) → (advance s).1.stats ≡ s.stats
unfolding advance
advance-stats s = ground arith

after_encode-IsRunning :
    (t : Turn) (s : Sender) (m : Memory) (output : List ℕ) (sent : List Sent)
    (encoded : Expected ℕ EncodeError)
    → IsBalanced 1 s.stats sent
    → IsSequenced s
    → IsRunning (after_encode t s m output sent encoded).1
unfolding after_encode
after_encode-IsRunning t s m output sent (unexpected error) v q = record {
  balanced = record { events = omega (arith, v.events); sends = v.sends };
  sequenced = record { nonzero = q.nonzero; width = q.width };
}
after_encode-IsRunning t s m output sent (value n) v q =
    let done =
      send_all t.replies 0 (take n output) s.destinations
        (record { stats = s.stats; sent_to_any = false; sent = sent }) in
    let counted = record s { stats = count_event done.stats done.sent_to_any } in
    record {
      balanced = rw (advance-stats counted) (
          count_event-IsBalanced done.stats done.sent done.sent_to_any (
            send_all-IsBalanced 1 t.replies 0 (take n output) s.destinations
              (record { stats = s.stats; sent_to_any = false; sent = sent }) v));
      sequenced = advance-IsSequenced counted (record { nonzero = q.nonzero; width = q.width });
    }

acquire_failed-IsRunning :
    (s : Sender) (m : Memory) (output : List ℕ) (sent : List Sent) (error : AcquireError)
    → IsBalanced 0 s.stats sent
    → IsSequenced s
    → IsRunning
        (record { sender = (acquire_failed s error).1; memory = m; output = output; sent = sent })
unfolding acquire_failed
acquire_failed-IsRunning s m output sent AcquireError.empty v q = record {
  balanced = v;
  sequenced = q;
}
acquire_failed-IsRunning s m output sent AcquireError.closed v q = record {
  balanced = v;
  sequenced = q;
}
acquire_failed-IsRunning s m output sent AcquireError.already_acquired v q = record {
  balanced = record { events = v.events; sends = v.sends };
  sequenced = record { nonzero = q.nonzero; width = q.width };
}
acquire_failed-IsRunning s m output sent AcquireError.invalid_slot_error v q = record {
  balanced = record { events = v.events; sends = v.sends };
  sequenced = record { nonzero = q.nonzero; width = q.width };
}

after_acquire-IsRunning :
    (t : Turn) (s : Sender) (m : Memory) (output : List ℕ) (sent : List Sent)
    (event : Expected EventView AcquireError)
    → IsBalanced 0 s.stats sent
    → IsSequenced s
    → IsRunning (after_acquire t s m output sent event).1
unfolding after_acquire
after_acquire-IsRunning t s m output sent (unexpected error) v q =
    acquire_failed-IsRunning s m output sent error v q
after_acquire-IsRunning t s m output sent (value event) v q =
    let (encoded, output') = encode_data event s.session_id s.packet_sequence output in
    let (_, ingress, m') = release s.ingress m in
    after_encode-IsRunning t
      (record s {
        ingress = ingress;
        stats = record s.stats { events_in = incremented s.stats.events_in };
      })
      m' output' sent encoded (record { events = omega (arith, v.events); sends = v.sends })
      (record { nonzero = q.nonzero; width = q.width })

turn-IsRunning : (state : Running) (t : Turn) → IsRunning state → IsRunning (turn state t).1
unfolding turn
turn-IsRunning state t v =
    let m = t.peer state.memory in
    let (event, ingress) = try_acquire state.sender.ingress m in
    after_acquire-IsRunning t (record state.sender { ingress = ingress }) m state.output state.sent
      event v.balanced (record { nonzero = v.sequenced.nonzero; width = v.sequenced.width })

run_turns-IsRunning :
    (state : Running) (turns : List Turn) → IsRunning state → IsRunning (run_turns state turns).1
unfolding run_turns
run_turns-IsRunning state [] v = v
run_turns-IsRunning state (t ∷ ts) v = elim (Bool-cases (state.sender.stop_requested || t.stop)) [
  | inl stopped ↦ rw stopped (record {
    balanced = v.balanced;
    sequenced = record { nonzero = v.sequenced.nonzero; width = v.sequenced.width };
  })
  | inr go ↦ rw go (elim (Next-cases (turn state t).0) [
    | inl ends ↦ rw ends (turn-IsRunning state t v)
    | inr goes ↦ rw goes (run_turns-IsRunning (turn state t).1 ts (turn-IsRunning state t v))
  ])
]

-- However `run` of a sender with clear counters and a valid packet sequence goes, whatever the
-- producer does and `sendto` returns, its counters add up modulo their width: every event that came
-- in went out or was dropped, and every call of `sendto` counts as a packet sent or as an error. The
-- packet sequence stays in range and never becomes zero.
pub run-IsRunning :
    (s : Sender) (m : Memory) (turns : List Turn)
    → s.stats ≡ no_stats
    → IsSequenced s
    → IsRunning (run s m turns).1
unfolding run
run-IsRunning s m turns fresh q =
    run_turns-IsRunning
      (record {
        sender = s;
        memory = m;
        output = replicate s.config.max_datagram_bytes 0;
        sent = [];
      })
      turns (record { balanced = rw fresh (record { events = refl; sends = refl }); sequenced = q })
