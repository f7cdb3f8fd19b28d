-- ===== src/Receiver/Startup/Cleanup.antt =====
-- What the start of src/receiver/receiver.cpp acquires, and that it is given back.
use low_latency_event_engine.Base.{
  ℕ, ◌≡◌, inl, inr, refl, sym, ap, arith, ◌∙◌, true, Bool-cases, List, [], ◌∷◌, ◌++◌, reverse,
  Option, none, some, Expected, value, unexpected,
}
use mathlib.Core.List.{append-nil, append_assoc}
use low_latency_event_engine.Config.{ReceiverConfig}
use low_latency_event_engine.Os.{Reply, Call}
use low_latency_event_engine.Os.Ledger.{
  as_list, Amounts, Amounts_lem, Amounts-append, IsTidy, Amounts-IsTidy, settled, reverse-as_list,
  reverse-one, IsTidy-one, opens, closes, maps, creates, unmap_results, unlink_results, answered,
}
use low_latency_event_engine.Ring.Layout.{Memory}
use low_latency_event_engine.Ring.Ops.{close_publication}
use low_latency_event_engine.Ring.Setup as Ring
use low_latency_event_engine.Ring.Setup.{RingError, SpscRing, move_handle, required_bytes}
use low_latency_event_engine.Segment.{Segment, SegmentErrno, Made, create_shm}
use low_latency_event_engine.Segment.Lifetime.{
  destroy_segment, close_shm, unmap_address, close_opened, unlink,
}
use low_latency_event_engine.Segment.Holdings.{
  IsCreated, create_shm-IsCreated, destroy_segment-Amounts, unlink-Amounts,
}
use low_latency_event_engine.Startup.{Platform, Started, behind, draw_id, bytes}
use low_latency_event_engine.Transport.Sockets.{UdpReceiver, Bound, bind_address}
use low_latency_event_engine.Transport.Ownership.{
  IsBound, bind_address-IsBound, close_socket-Amounts,
}
use low_latency_event_engine.Receiver.{Receiver}
use low_latency_event_engine.Receiver.Startup.Shutdown.{
  request_stop, move_engine, retire, destroy_engine,
}
use low_latency_event_engine.Receiver.Startup.{
  ReceiverReplies, Result, is_config_invalid, listen_text, new_receiver, give, with_ring,
  with_segment, with_instance, with_socket, with_address, with_size, initialize,
}

-- What the destruction of a receiver finds: the system calls' replies.
pub record Ending : Type 0 where
  pub errno : SegmentErrno
  pub shm_unlink : Reply
  pub munmap : Reply
  pub close : Reply

abbrev pub destruction : Ending → Receiver → Memory → List Call
destruction e s m = (destroy_engine e.errno e.shm_unlink e.munmap e.close s m).1

-- A failure has given everything back, with the replies of its clean-up, and so have a start that
-- succeeds and the destruction of its receiver, with those of the destruction.
abbrev pub EndsSettled : Ending → ReceiverReplies → Started Result → Type 0
EndsSettled e r none = Unit {0}
EndsSettled e r (some ((unexpected error, m), calls)) = IsTidy r.munmap r.segment.shm_unlink calls
EndsSettled e r (some ((value s, m), calls)) =
    let all_calls = calls ++ destruction e s m in
    (closes all_calls ≡ opens all_calls)
    × (unmap_results all_calls ≡ answered e.munmap (maps all_calls))
    × (unlink_results all_calls ≡ answered e.shm_unlink (creates all_calls))

pub retire-owner :
    (e : Ending) (s : Receiver) (m : Memory)
    → s.segment.owner ≡ true
    → let (_, m') = close_publication s.egress m in
      let (_, segment, calls) = unlink e.errno e.shm_unlink s.segment in
      retire e.errno e.shm_unlink s m ≡ (segment, m', calls)
unfolding retire
retire-owner e s m owner = ground (arith, owner)

-- The destruction of a receiver that owns its segment.
destruction-Amounts :
    (e : Ending) (s : Receiver) (m : Memory)
    → s.segment.owner ≡ true
    → s.segment.linked ≡ true
    → Amounts
        (destruction e s m)
        []
        (as_list s.udp.socket_fd ++ as_list s.segment.descriptor)
        []
        (answered e.munmap (as_list s.segment.address))
        []
        ((s.segment.name, e.shm_unlink) ∷ [])
unfolding destroy_engine
destruction-Amounts e s m owner linked =
    let (removal, descriptor, address) =
      unlink-Amounts e.errno e.shm_unlink s.segment owner linked in
    let rest = destroy_segment-Amounts e.munmap e.close (unlink e.errno e.shm_unlink s.segment).1 in
    let total =
      Amounts-append (Amounts-append removal (close_socket-Amounts s.udp.socket_fd)) rest in
    rw (retire-owner e s m owner) (rw (descriptor, address) at total)

module _ (e : Ending) where
  -- The calls so far, and then those of a start.
  abbrev Gives : ReceiverReplies → List Call → Started Result → Type 0
  Gives r calls started = EndsSettled e r (behind calls started)

  give-Gives :
      (p : Platform) (r : ReceiverReplies) (s : Receiver) (m : Memory) (calls : List Call)
      → s.segment.owner ≡ true
      → s.segment.linked ≡ true
      → Amounts calls
          (as_list s.udp.socket_fd ++ as_list s.segment.descriptor)
          []
          (as_list s.segment.address)
          []
          (s.segment.name ∷ [])
          []
      → Gives r calls (some (give p r s m))
  unfolding behind give move_engine request_stop destroy_engine retire move_handle destroy_segment
      close_shm unmap_address close_opened
  give-Gives p r s m calls owner linked held = rw (append-nil calls) (
      let total = Amounts-append held (destruction-Amounts e s m owner linked) in
      (
        total.closing
            ∙ sym (append-nil (as_list s.udp.socket_fd ++ as_list s.segment.descriptor))
            ∙ sym total.opening,
        total.unmapping
            ∙ ap (answered e.munmap)
                (sym (append-nil (as_list s.segment.address)) ∙ sym total.mapping),
        total.removing ∙ ap (answered e.shm_unlink) (sym total.making),
      ))

  with_ring-Gives :
      (p : Platform) (r : ReceiverReplies) (config : ReceiverConfig) (udp : UdpReceiver)
      (segment : Segment) (ring : Expected SpscRing RingError) (m : Memory) (calls : List Call)
      → segment.owner ≡ true
      → segment.linked ≡ true
      → Amounts calls
          (as_list udp.socket_fd ++ as_list segment.descriptor)
          []
          (as_list segment.address)
          []
          (segment.name ∷ [])
          []
      → Gives r calls (some (with_ring p r config udp segment ring m))
  unfolding behind with_ring new_receiver
  with_ring-Gives p r config udp segment (unexpected error) m calls owner linked held =
      let (removal, descriptor, address) =
        unlink-Amounts p.segment_errno r.segment.shm_unlink segment owner linked in
      let rest =
        destroy_segment-Amounts r.munmap r.close
          (unlink p.segment_errno r.segment.shm_unlink segment).1 in
      let total =
        Amounts-append (Amounts-append removal rest) (close_socket-Amounts udp.socket_fd) in
      settled held (rw (descriptor, address) at total)
        (reverse-as_list udp.socket_fd segment.descriptor)
        (append-nil (answered r.munmap (as_list segment.address))) refl
  with_ring-Gives p r config udp segment (value egress) m calls owner linked held =
      give-Gives p r (new_receiver config segment egress udp) m calls owner linked held

  -- Calls behind calls.
  Gives-behind :
      (r : ReceiverReplies) (cs ds : List Call) (started : Started Result)
      → Gives r (cs ++ ds) started
      → Gives r cs (behind ds started)
  unfolding behind
  Gives-behind r cs ds none g = tt
  Gives-behind r cs ds (some ((unexpected error, m), calls)) g =
      rw (sym (append_assoc cs ds calls)) g
  Gives-behind r cs ds (some ((value s, m), calls)) g = rw (sym (append_assoc cs ds calls)) g

  with_segment-Gives :
      (p : Platform) (r : ReceiverReplies) (contents : Memory) (config : ReceiverConfig)
      (udp : UdpReceiver) (id : ℕ) (made : Made) (calls : List Call)
      → IsCreated r.segment.shm_unlink made
      → Amounts calls (as_list udp.socket_fd) [] [] [] [] []
      → Gives r calls (some (with_segment p r contents config udp id made))
  unfolding behind with_segment
  with_segment-Gives p r contents config udp id (unexpected error, more) calls (d, names, created)
        held =
      let total =
        Amounts-append held (Amounts-append created (close_socket-Amounts udp.socket_fd)) in
      Amounts-IsTidy total
        (reverse-as_list udp.socket_fd d
          ∙ ap (λ x. reverse (as_list udp.socket_fd ++ x)) (sym (append-nil (as_list d))))
        refl
        (append-nil (answered r.segment.shm_unlink names)
          ∙ ap (answered r.segment.shm_unlink) (sym (append-nil names)))
  with_segment-Gives p r contents config udp id (value segment, more) calls (created, owner, linked)
        held =
      let (ring, m) = Ring.initialize (bytes segment contents) config.egress_ring id in
      Gives-behind r calls more (some (with_ring p r config udp segment ring m)) (
        with_ring-Gives p r config udp segment ring m (calls ++ more) owner linked
          (Amounts-append held created))

  with_instance-Gives :
      (p : Platform) (r : ReceiverReplies) (contents : Memory) (config : ReceiverConfig) (size : ℕ)
      (udp : UdpReceiver) (id : Option (Option ℕ)) (calls : List Call)
      → Amounts calls (as_list udp.socket_fd) [] [] [] [] []
      → Gives r calls (with_instance p r contents config size udp id)
  unfolding behind with_instance
  with_instance-Gives p r contents config size udp none calls held = tt
  with_instance-Gives p r contents config size udp (some none) calls held =
      settled held (close_socket-Amounts udp.socket_fd) (reverse-one udp.socket_fd) refl refl
  with_instance-Gives p r contents config size udp (some (some id)) calls held =
      with_segment-Gives p r contents config udp id
        (create_shm p.segment_errno r.segment config.egress_shm_name size) calls
        (create_shm-IsCreated p.segment_errno r.segment config.egress_shm_name size) held

  with_socket-EndsSettled :
      (p : Platform) (r : ReceiverReplies) (contents : Memory) (config : ReceiverConfig) (size : ℕ)
      (bound : Bound)
      → IsBound bound
      → EndsSettled e r (with_socket p r contents config size bound)
  unfolding with_socket
  with_socket-EndsSettled p r contents config size (unexpected error, calls) (fd, held) =
      IsTidy-one fd [] held
  with_socket-EndsSettled p r contents config size (value udp, calls) held =
      with_instance-Gives p r contents config size udp (draw_id p.errno 8 r.draws) calls held

  with_address-EndsSettled :
      (p : Platform) (r : ReceiverReplies) (contents : Memory) (config : ReceiverConfig) (size : ℕ)
      (number : Option ℕ)
      → EndsSettled e r (with_address p r contents config size number)
  unfolding with_address
  with_address-EndsSettled p r contents config size none = IsTidy-one none [] (Amounts_lem [])
  with_address-EndsSettled p r contents config size (some number) =
      with_socket-EndsSettled p r contents config size
        (bind_address r.bind
          (record { is_inet = true; port = config.listen.port; address = number }))
        (bind_address-IsBound r.bind config.listen.port number)

  with_size-EndsSettled :
      (p : Platform) (r : ReceiverReplies) (contents : Memory) (config : ReceiverConfig)
      (size : Expected ℕ RingError)
      → EndsSettled e r (with_size p r contents config size)
  unfolding with_size
  with_size-EndsSettled p r contents config (unexpected error) = IsTidy-one none [] (Amounts_lem [])
  with_size-EndsSettled p r contents config (value size) =
      with_address-EndsSettled p r contents config size
        (p.inet_pton (listen_text config.listen.address))

  -- Whatever the system calls return, a receiver whose start fails, at whichever step, has made one
  -- `close` call on each descriptor that it has opened, in the reverse order, one `munmap` call on the
  -- memory that it has mapped and one `shm_unlink` call on the name that it has created, and no other
  -- such call. A start that succeeds and the destruction of its receiver do the same, but that the
  -- descriptors are closed in the order in which they were opened.
  pub initialize-EndsSettled :
      (p : Platform) (r : ReceiverReplies) (contents : Memory) (config : ReceiverConfig)
      → EndsSettled e r (initialize p r contents config)
  unfolding initialize
  initialize-EndsSettled p r contents config = elim (Bool-cases (is_config_invalid config)) [
    | inl bad ↦ rw bad (IsTidy-one none [] (Amounts_lem []))
    | inr good ↦
        rw good (with_size-EndsSettled p r contents config (required_bytes config.egress_ring))
  ]
