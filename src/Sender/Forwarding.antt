-- ===== src/Sender/Forwarding.antt =====
-- The oldest event of the ingress ring becomes one datagram for every destination of the sender of
-- src/sender/sender.cpp.
use low_latency_event_engine.Base.{
  ℕ, suc, ◌+◌, ◌<◌, ◌≤◌, ◌≡◌, refl, sym, ap, ap₂, ◌∙◌, arith, true, false, List, [], ◌∷◌, ◌++◌,
  Option, none, some, length, take, take_left_of, drop, ◌^◌, value,
}
use low_latency_event_engine.Event.{EventView}
use low_latency_event_engine.Protocol.Types.{DecodedDataView}
use low_latency_event_engine.Protocol.Wire.{
  wire_packet, wire_size, IsSendable, HasWidths, length-wire_packet,
}
use low_latency_event_engine.Protocol.Encoding.{encode_data_lem}
use low_latency_event_engine.Ring.Layout.{Memory}
use low_latency_event_engine.Ring.Setup.{SpscRing}
use low_latency_event_engine.Ring.Ops.{try_acquire, release}
use low_latency_event_engine.Ring.Queue.{Queue}
use low_latency_event_engine.Ring.Queue
use low_latency_event_engine.Ring.Linked.{IsLinked, queue_of}
use low_latency_event_engine.Ring.Refine.Acquire.{try_acquire_refines}
use low_latency_event_engine.Ring.Refine.Release.{release_refines}
use low_latency_event_engine.Transport.{UdpError, SockaddrIn, Reply, send_to}
use low_latency_event_engine.Stats.{incremented}
use low_latency_event_engine.Sender.{
  Sender, Sent, Running, Turn, Next, continue_loop, Sending, send_one, send_all, count_event,
  advance, after_encode, after_acquire, turn,
}

-- One call of `sendto` with a datagram for each destination, in order.
abbrev pub calls : List ℕ → List SockaddrIn → List Sent
calls datagram [] = []
calls datagram (d ∷ ds) = record { datagram = datagram; destination = d } ∷ calls datagram ds

pub length-calls :
    (datagram : List ℕ) (ds : List SockaddrIn) → length (calls datagram ds) ≡ length ds
length-calls datagram [] = refl
length-calls datagram (d ∷ ds) = ap suc (length-calls datagram ds)

send_one-sent :
    (result : Option UdpError) (call : Sent) (s : Sending)
    → (send_one result call s).sent ≡ s.sent ++ (call ∷ [])
unfolding send_one
send_one-sent none call s = refl
send_one-sent (some error) call s = refl

append_assoc :
    {A : Type 0} (xs : List A) (y : A) (ys : List A) → (xs ++ (y ∷ [])) ++ ys ≡ xs ++ (y ∷ ys)
append_assoc [] y ys = refl
append_assoc (x ∷ xs) y ys = ap (λ t. x ∷ t) (append_assoc xs y ys)

-- An error of one call does not keep the others from being made.
send_all-sent :
    (replies : ℕ → Reply) (i : ℕ) (datagram : List ℕ) (ds : List SockaddrIn) (s : Sending)
    → (send_all replies i datagram ds s).sent ≡ s.sent ++ calls datagram ds
unfolding send_all
send_all-sent replies i datagram [] s = sym (append_nil s.sent)
  where
    append_nil : (xs : List Sent) → xs ++ [] ≡ xs
    append_nil [] = refl
    append_nil (x ∷ xs) = ap (λ t. x ∷ t) (append_nil xs)
send_all-sent replies i datagram (d ∷ ds) s =
    let call : Sent = record { datagram = datagram; destination = d } in
    let result = send_to (replies i) datagram in
    send_all-sent replies (i + 1) datagram ds (send_one result call s)
    ∙ ap (λ xs. xs ++ calls datagram ds) (send_one-sent result call s)
    ∙ append_assoc s.sent call (calls datagram ds)

-- The queue without its oldest event, which nobody holds.
abbrev pub without_oldest : List EventView → Queue → Queue
without_oldest rest q = record q { items = rest; held = false }

module _ {p c : SpscRing} {m : Memory} (e : EventView) (rest : List EventView) (v : IsLinked p c m)
    (oldest : (queue_of p c m).items ≡ e ∷ rest) (idle : c.acquired ≡ false) where
  abbrev holding : SpscRing
  holding = (try_acquire c m).1

  abbrev held_queue : Queue
  held_queue = record (queue_of p c m) { items = e ∷ rest; held = true }

  queue_acquire : Queue.acquire (queue_of p c m) ≡ (value e, held_queue)
  unfolding Queue.acquire
  queue_acquire =
      ap₂ (λ i h. Queue.acquire (record (queue_of p c m) { items = i; held = h })) oldest idle

  queue_release : Queue.release held_queue ≡ (true, without_oldest rest (queue_of p c m))
  unfolding Queue.release
  queue_release = refl

  try_acquire-value : (try_acquire c m).0 ≡ value e
  try_acquire-value = (try_acquire_refines v).0 ∙ ap (λ r. r.0) queue_acquire

  holding-queue : queue_of p holding m ≡ held_queue
  holding-queue = (try_acquire_refines v).1 ∙ ap (λ r. r.1) queue_acquire

  -- Acquiring the oldest event and releasing it takes it out of the queue.
  release-queue :
      let (_, c', m') = release holding m in
      (queue_of p c' m' ≡ without_oldest rest (queue_of p c m)) × IsLinked p c' m'
  release-queue =
      let r = release_refines (try_acquire_refines v).2 in
      (r.1 ∙ ap (λ q. (Queue.release q).1) holding-queue ∙ ap (λ r. r.1) queue_release, r.2)

-- The event with the identity that the sender gives it.
abbrev pub outgoing : Sender → EventView → DecodedDataView
outgoing s e = record { session_id = s.session_id; packet_sequence = s.packet_sequence; event = e }

-- What the end of a turn leaves once a packet is encoded.
abbrev Sends : Sender → Memory → List Sent → List ℕ → Next × Running → Type 0
Sends s m sent packet out =
    let (next, after) = out in
    (next ≡ continue_loop)
    × (after.sent ≡ sent ++ calls packet s.destinations)
    × (after.sender.packet_sequence ≡ s.packet_sequence + 1)
    × (after.sender.ingress ≡ s.ingress)
    × (after.memory ≡ m)

advance_lem :
    (s : Sender)
    → s.packet_sequence + 1 < 2 ^ 64
    → advance s ≡ (continue_loop, record s { packet_sequence = s.packet_sequence + 1 })
unfolding advance
advance_lem s more = ground (arith, more)

after_encode-Sends :
    (t : Turn) (s : Sender) (m : Memory) (output : List ℕ) (sent : List Sent) (n : ℕ)
    → s.packet_sequence + 1 < 2 ^ 64
    → Sends s m sent (take n output) (after_encode t s m output sent (value n))
unfolding after_encode
after_encode-Sends t s m output sent n more =
    let start : Sending = record { stats = s.stats; sent_to_any = false; sent = sent } in
    let done = send_all t.replies 0 (take n output) s.destinations start in
    let counted = record s { stats = count_event done.stats done.sent_to_any } in
    rw (advance_lem counted more)
      (refl, send_all-sent t.replies 0 (take n output) s.destinations start, refl, refl, refl)

after_acquire-Sends :
    (t : Turn) (s : Sender) (m : Memory) (output : List ℕ) (sent : List Sent) (e : EventView)
    → IsSendable (outgoing s e)
    → HasWidths (outgoing s e)
    → wire_size (length e.payload) ≤ length output
    → s.packet_sequence + 1 < 2 ^ 64
    → let (_, ingress, m') = release s.ingress m in
      Sends
        (record s { ingress = ingress })
        m'
        sent
        (wire_packet (outgoing s e))
        (after_acquire t s m output sent (value e))
unfolding after_acquire
after_acquire-Sends t s m output sent e i w room more =
    let packet = wire_packet (outgoing s e) in
    let n = wire_size (length e.payload) in
    let (_, ingress, m') = release s.ingress m in
    let entered = record s {
      ingress = ingress;
      stats = record s.stats { events_in = incremented s.stats.events_in };
    } in
    let sends = after_encode-Sends t entered m' (packet ++ drop n output) sent n more in
    rw (encode_data_lem (outgoing s e) output i w room) (
      sends.0,
      sends.1
          ∙ ap (λ x. sent ++ calls x s.destinations)
              (take_left_of n packet (drop n output) (sym (length-wire_packet (outgoing s e)))),
      sends.2,
      sends.3,
      sends.4,
    )

module _ (p : SpscRing) (state : Running) (t : Turn) (e : EventView) (rest : List EventView) where
  abbrev s : Sender
  s = state.sender

  abbrev m : Memory
  m = t.peer state.memory

  -- When the oldest event of the linked ingress ring may be sent, fits the buffer, and is not the last
  -- of the session, one turn makes one call of `sendto` for each destination, in order and whatever the
  -- earlier calls return, each with the packet that docs/protocol.md lays out for the event. It takes the
  -- event out of the ring, keeps the handles linked, advances the packet sequence and goes on.
  pub turn-sends :
      IsLinked p s.ingress m
      → (queue_of p s.ingress m).items ≡ e ∷ rest
      → s.ingress.acquired ≡ false
      → IsSendable (outgoing s e)
      → HasWidths (outgoing s e)
      → wire_size (length e.payload) ≤ length state.output
      → s.packet_sequence + 1 < 2 ^ 64
      → let (next, after) = turn state t in
        (next ≡ continue_loop)
        × (after.sent ≡ state.sent ++ calls (wire_packet (outgoing s e)) s.destinations)
        × (after.sender.packet_sequence ≡ s.packet_sequence + 1)
        × (queue_of p after.sender.ingress after.memory
            ≡ without_oldest rest (queue_of p s.ingress m))
        × IsLinked p after.sender.ingress after.memory
  unfolding turn
  turn-sends linked oldest idle i w room more =
      let holder = record s { ingress = holding e rest linked oldest idle } in
      let sends = after_acquire-Sends t holder m state.output state.sent e i w room more in
      let (queue, linked') = release-queue e rest linked oldest idle in
      rw (try_acquire-value e rest linked oldest idle)
        (sends.0, sends.1, sends.2, rw (sends.3, sends.4) queue, rw (sends.3, sends.4) linked')
