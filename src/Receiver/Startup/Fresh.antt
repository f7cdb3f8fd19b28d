-- ===== src/Receiver/Startup/Fresh.antt =====
-- The receiver that a successful start of src/receiver/receiver.cpp gives.
use low_latency_event_engine.Base.{
  ℕ, ◌≡◌, inl, inr, refl, true, false, Bool-cases, List, Option, none, some, Expected, value,
  unexpected,
}
use low_latency_event_engine.Config.{ReceiverConfig}
use low_latency_event_engine.Gap.{new_detector}
use low_latency_event_engine.Os.{Call}
use low_latency_event_engine.Ring.Layout.{Memory}
use low_latency_event_engine.Ring.Setup as Ring
use low_latency_event_engine.Ring.Setup.{RingError, SpscRing, move_handle, required_bytes}
use low_latency_event_engine.Ring.Sizes.{HasWidths}
use low_latency_event_engine.Ring.Start.{StartsEmpty}
use low_latency_event_engine.Ring.Start.Success.{HasStorage, IsReady, initialize-IsReady}
use low_latency_event_engine.Segment.{Segment, Made, create_shm}
use low_latency_event_engine.Segment.Holdings.{IsCreated, create_shm-IsCreated}
use low_latency_event_engine.Startup.{Platform, Started, behind, draw_id, bytes}
use low_latency_event_engine.Stats.{no_stats}
use low_latency_event_engine.Transport.Sockets.{UdpReceiver, Bound, bind_address}
use low_latency_event_engine.Receiver.{Receiver}
use low_latency_event_engine.Receiver.Startup.Shutdown.{
  request_stop, move_engine, retire, destroy_engine,
}
use low_latency_event_engine.Receiver.Startup.{
  ReceiverReplies, Result, is_config_invalid, listen_text, new_receiver, give, with_ring,
  with_segment, with_instance, with_socket, with_address, with_size, initialize,
}

-- A receiver as a start for `config` gives it, with the shared memory behind the start: its egress
-- handle has a peer, which `attach` gives, and between them is an empty queue.
pub record IsServing (config : ReceiverConfig) (s : Receiver) (m : Memory) : Type 0 where
  pub configured : s.config ≡ config
  pub consumer : SpscRing
  pub linked : StartsEmpty s.egress consumer (value s.egress, m)
  pub owner : s.segment.owner ≡ true
  pub unstopped : s.stop_requested ≡ false
  pub uncounted : s.stats ≡ no_stats
  pub unheard : s.gap_detector ≡ new_detector

abbrev pub Succeeds : ReceiverConfig → Started Result → Type 0
Succeeds config none = Unit {0}
Succeeds config (some ((unexpected e, m), calls)) = Unit {0}
Succeeds config (some ((value s, m), calls)) = IsServing config s m

module _ (p : Platform) (r : ReceiverReplies) (contents : Memory) (config : ReceiverConfig)
    (w : HasWidths config.egress_ring) (storage : HasStorage contents config.egress_ring) where
  behind-Succeeds :
      (calls : List Call) (started : Started Result)
      → Succeeds config started
      → Succeeds config (behind calls started)
  unfolding behind
  behind-Succeeds calls none f = tt
  behind-Succeeds calls (some ((unexpected e, m), more)) f = tt
  behind-Succeeds calls (some ((value s, m), more)) f = f

  with_ring-Succeeds :
      (udp : UdpReceiver) (segment : Segment) (ring : Expected SpscRing RingError) (m : Memory)
      → segment.owner ≡ true
      → IsReady (ring, m)
      → Succeeds config (some (with_ring p r config udp segment ring m))
  unfolding with_ring new_receiver give move_engine request_stop move_handle destroy_engine retire
  with_ring-Succeeds udp segment (unexpected e) m owner ready = tt
  with_ring-Succeeds udp segment (value egress) m owner (consumer, starts) = record {
    configured = refl;
    consumer = consumer;
    linked = starts;
    owner = owner;
    unstopped = refl;
    uncounted = refl;
    unheard = refl;
  }

  with_segment-Succeeds :
      (udp : UdpReceiver) (id : ℕ) (made : Made)
      → IsCreated r.segment.shm_unlink made
      → Succeeds config (some (with_segment p r contents config udp id made))
  unfolding with_segment behind
  with_segment-Succeeds udp id (unexpected e, calls) created = tt
  with_segment-Succeeds udp id (value segment, calls) (_, owner, _) =
      let (ring, m) = Ring.initialize (bytes segment contents) config.egress_ring id in
      behind-Succeeds calls (some (with_ring p r config udp segment ring m))
        (with_ring-Succeeds udp segment ring m owner ready)
    where
      ready : IsReady (Ring.initialize (bytes segment contents) config.egress_ring id)
      ready =
          initialize-IsReady (bytes segment contents) config.egress_ring id w
            (unfold bytes in storage)

  with_instance-Succeeds :
      (size : ℕ) (udp : UdpReceiver) (id : Option (Option ℕ))
      → Succeeds config (with_instance p r contents config size udp id)
  unfolding with_instance
  with_instance-Succeeds size udp none = tt
  with_instance-Succeeds size udp (some none) = tt
  with_instance-Succeeds size udp (some (some id)) =
      with_segment-Succeeds udp id
        (create_shm p.segment_errno r.segment config.egress_shm_name size)
        (create_shm-IsCreated p.segment_errno r.segment config.egress_shm_name size)

  with_socket-Succeeds :
      (size : ℕ) (bound : Bound) → Succeeds config (with_socket p r contents config size bound)
  unfolding with_socket
  with_socket-Succeeds size (unexpected e, calls) = tt
  with_socket-Succeeds size (value udp, calls) =
      let id = draw_id p.errno 8 r.draws in
      behind-Succeeds calls (with_instance p r contents config size udp id)
        (with_instance-Succeeds size udp id)

  with_address-Succeeds :
      (size : ℕ) (number : Option ℕ)
      → Succeeds config (with_address p r contents config size number)
  unfolding with_address
  with_address-Succeeds size none = tt
  with_address-Succeeds size (some number) =
      with_socket-Succeeds size (
        bind_address r.bind
          (record { is_inet = true; port = config.listen.port; address = number }))

  with_size-Succeeds :
      (size : Expected ℕ RingError) → Succeeds config (with_size p r contents config size)
  unfolding with_size
  with_size-Succeeds (unexpected e) = tt
  with_size-Succeeds (value size) =
      with_address-Succeeds size (p.inet_pton (listen_text config.listen.address))

  -- A start that succeeds, for a ring configuration of 32-bit fields and shared memory with room for
  -- the slots, gives a receiver that owns its segment, has received and counted nothing, and publishes
  -- into an empty ring: a consumer that attaches to the memory is linked to its egress handle.
  pub initialize-IsServing : Succeeds config (initialize p r contents config)
  unfolding initialize
  initialize-IsServing = elim (Bool-cases (is_config_invalid config)) [
    | inl bad ↦ rw bad tt
    | inr good ↦ rw good (with_size-Succeeds (required_bytes config.egress_ring))
  ]
