-- ===== src/Sender/Startup/Lifetime.antt =====
-- The whole life of a sender of src/sender/sender.cpp: start, run and destruction.
use low_latency_event_engine.Base.{
  ◌≡◌, inl, inr, refl, ap₂, ◌∙◌, arith, ℕ, false, ◌||◌, Bool-cases, List, [], ◌∷◌, ◌++◌, none, some,
  replicate, Expected, value, unexpected, take,
}
use low_latency_event_engine.Event.{EventView}
use low_latency_event_engine.Protocol.Types.{EncodeError}
use low_latency_event_engine.Protocol.Encoder.{encode_data}
use low_latency_event_engine.Config.{SenderConfig, InitError}
use low_latency_event_engine.Os.{Reply}
use low_latency_event_engine.Os.Ledger.{IsTidy}
use low_latency_event_engine.Ring.Layout.{Memory}
use low_latency_event_engine.Ring.Ops.{AcquireError, try_acquire, release}
use low_latency_event_engine.Segment.Lifetime.{destroy_segment}
use low_latency_event_engine.Transport.Sockets.{close_socket}
use low_latency_event_engine.Startup.{Platform, Started}
use low_latency_event_engine.Stats.{incremented}
use low_latency_event_engine.Sender.{
  Sender, Sent, Running, Turn, Next-cases, send_all, count_event, advance, after_encode,
  acquire_failed, after_acquire, turn, run_turns, run,
}
use low_latency_event_engine.Sender.Startup.{SenderReplies, destroy_engine, initialize}
use low_latency_event_engine.Sender.Startup.Cleanup.{EndsTidy, initialize-EndsTidy}

-- One sender holds what the other does.
abbrev SameHoldings : Sender → Sender → Type 0
SameHoldings s r = (s.segment ≡ r.segment) × (s.udp ≡ r.udp)

advance-SameHoldings : (s : Sender) → SameHoldings (advance s).1 s
unfolding advance
advance-SameHoldings s = ground arith

after_encode-SameHoldings :
    (t : Turn) (s : Sender) (m : Memory) (output : List ℕ) (sent : List Sent)
    (encoded : Expected ℕ EncodeError)
    → SameHoldings (after_encode t s m output sent encoded).1.sender s
unfolding after_encode
after_encode-SameHoldings t s m output sent (unexpected error) = (refl, refl)
after_encode-SameHoldings t s m output sent (value encoded) =
    let done =
      send_all t.replies 0 (take encoded output) s.destinations
        (record { stats = s.stats; sent_to_any = false; sent = sent }) in
    advance-SameHoldings (record s { stats = count_event done.stats done.sent_to_any })

acquire_failed-SameHoldings :
    (s : Sender) (error : AcquireError) → SameHoldings (acquire_failed s error).1 s
unfolding acquire_failed
acquire_failed-SameHoldings s AcquireError.empty = (refl, refl)
acquire_failed-SameHoldings s AcquireError.closed = (refl, refl)
acquire_failed-SameHoldings s AcquireError.already_acquired = (refl, refl)
acquire_failed-SameHoldings s AcquireError.invalid_slot_error = (refl, refl)

after_acquire-SameHoldings :
    (t : Turn) (s : Sender) (m : Memory) (output : List ℕ) (sent : List Sent)
    (event : Expected EventView AcquireError)
    → SameHoldings (after_acquire t s m output sent event).1.sender s
unfolding after_acquire
after_acquire-SameHoldings t s m output sent (unexpected error) =
    acquire_failed-SameHoldings s error
after_acquire-SameHoldings t s m output sent (value event) =
    let (encoded, output') = encode_data event s.session_id s.packet_sequence output in
    let (_, ingress, m') = release s.ingress m in
    after_encode-SameHoldings t
      (record s {
        ingress = ingress;
        stats = record s.stats { events_in = incremented s.stats.events_in };
      })
      m' output' sent encoded

turn-SameHoldings : (state : Running) (t : Turn) → SameHoldings (turn state t).1.sender state.sender
unfolding turn
turn-SameHoldings state t =
    let m = t.peer state.memory in
    let (event, ingress) = try_acquire state.sender.ingress m in
    after_acquire-SameHoldings t (record state.sender { ingress = ingress }) m state.output
      state.sent event

run_turns-SameHoldings :
    (state : Running) (ts : List Turn) → SameHoldings (run_turns state ts).1.sender state.sender
unfolding run_turns
run_turns-SameHoldings state [] = (refl, refl)
run_turns-SameHoldings state (t ∷ ts) = elim (Bool-cases (state.sender.stop_requested || t.stop)) [
  | inl stopped ↦ rw stopped (refl, refl)
  | inr go ↦ rw go (elim (Next-cases (turn state t).0) [
    | inl ends ↦ rw ends (turn-SameHoldings state t)
    | inr goes ↦
        let (segment, udp) = run_turns-SameHoldings (turn state t).1 ts in
        let (segment', udp') = turn-SameHoldings state t in rw goes (segment ∙ segment', udp ∙ udp')
  ])
]

destroy_engine-SameHoldings :
    (munmap close : Reply) (s r : Sender)
    → SameHoldings s r
    → destroy_engine munmap close s ≡ destroy_engine munmap close r
unfolding destroy_engine
destroy_engine-SameHoldings munmap close s r (segment, udp) =
    ap₂ (λ a b. close_socket b.socket_fd ++ destroy_segment munmap close a) segment udp

-- A start that fails, or one that succeeds with a run over any turns and then the destruction.
abbrev pub LivesTidy :
    Reply
    → Reply
    → SenderReplies
    → Memory
    → List Turn
    → Started (Expected Sender InitError)
    → Type 0
LivesTidy munmap close r m ts none = Unit {0}
LivesTidy munmap close r m ts (some (unexpected e, calls)) =
    IsTidy r.munmap r.segment.shm_unlink calls
LivesTidy munmap close r m ts (some (value s, calls)) =
    let (_, state) = run s m ts in
    IsTidy munmap r.segment.shm_unlink (calls ++ destroy_engine munmap close state.sender)

lives :
    (munmap close : Reply) (r : SenderReplies) (m : Memory) (ts : List Turn)
    (started : Started (Expected Sender InitError))
    → EndsTidy munmap close r started
    → LivesTidy munmap close r m ts started
unfolding run
lives munmap close r m ts none v = tt
lives munmap close r m ts (some (unexpected e, calls)) v = v
lives munmap close r m ts (some (value s, calls)) v =
    let state : Running = record {
      sender = s;
      memory = m;
      output = replicate s.config.max_datagram_bytes 0;
      sent = [];
    } in
    rw
      (destroy_engine-SameHoldings munmap close (run_turns state ts).1.sender s
        (run_turns-SameHoldings state ts))
      v

-- Whatever the system calls return, a sender whose start fails, at whichever step, has made one
-- `close` call on each descriptor that it has opened, in the reverse order, and one `munmap` call on
-- the memory that it has mapped, and no other such call; it calls `shm_unlink` on no name but one that
-- it has created. A start that succeeds, a run of the loop over any turns and the destruction of the
-- sender do the same. The `munmap` call is given with its reply: memory stays mapped only where that
-- one call fails.
pub initialize-LivesTidy :
    (munmap close : Reply) (m : Memory) (ts : List Turn) (p : Platform) (r : SenderReplies)
    (contents : Memory) (config : SenderConfig)
    → LivesTidy munmap close r m ts (initialize p r contents config)
initialize-LivesTidy munmap close m ts p r contents config =
    lives munmap close r m ts (initialize p r contents config)
      (initialize-EndsTidy munmap close p r contents config)
