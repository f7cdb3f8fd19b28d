-- ===== src/Sender/Startup/Cleanup.antt =====
-- What the start of src/sender/sender.cpp acquires, and that it is given back.
use low_latency_event_engine.Base.{
  ℕ, inl, inr, refl, sym, Bool-cases, List, [], ◌++◌, Option, none, some, Expected, value,
  unexpected,
}
use mathlib.Core.List.{append-nil, append_assoc}
use low_latency_event_engine.Config.{SenderConfig, InitError}
use low_latency_event_engine.Os.{Reply, Call}
use low_latency_event_engine.Os.Ledger.{
  as_list, Amounts, Amounts_lem, Amounts-append, IsTidy, settled, also_opened, reverse-as_list,
  reverse-one, IsTidy-one,
}
use low_latency_event_engine.Ring.Layout.{Memory}
use low_latency_event_engine.Ring.Setup.{RingError, SpscRing, move_handle, attach}
use low_latency_event_engine.Segment.{Segment, Made}
use low_latency_event_engine.Segment.Lifetime.{
  attach_shm, destroy_segment, close_shm, unmap_address, close_opened,
}
use low_latency_event_engine.Segment.Holdings.{
  IsAttached, attach_shm-IsAttached, destroy_segment-Amounts,
}
use low_latency_event_engine.Startup.{Platform, Started, behind, draw_id, bytes}
use low_latency_event_engine.Transport.{SockaddrIn, UdpError}
use low_latency_event_engine.Transport.Sockets.{UdpSender, open_sender}
use low_latency_event_engine.Transport.Ownership.{
  IsOpened, open_sender-IsOpened, close_socket-Amounts,
}
use low_latency_event_engine.Sender.{Sender}
use low_latency_event_engine.Sender.Startup.{
  SenderReplies, is_config_invalid, parse_destinations, new_sender, request_stop, move_engine,
  destroy_engine, give, with_session, with_socket, with_ring, with_segment, with_destinations,
  initialize,
}

-- A start that has not returned has not failed; a failure has given everything back with the replies
-- of its clean-up. A sender creates no name, so that its tidy calls have no `shm_unlink`.
abbrev pub EndsTidy : Reply → Reply → SenderReplies → Started (Expected Sender InitError) → Type 0
EndsTidy munmap close r none = Unit {0}
EndsTidy munmap close r (some (unexpected e, calls)) = IsTidy r.munmap r.segment.shm_unlink calls
EndsTidy munmap close r (some (value s, calls)) =
    IsTidy munmap r.segment.shm_unlink (calls ++ destroy_engine munmap close s)

module _ (munmap close : Reply) where
  -- The calls so far, and then those of a start.
  abbrev Gives : SenderReplies → List Call → Started (Expected Sender InitError) → Type 0
  Gives r calls started = EndsTidy munmap close r (behind calls started)

  give-Gives :
      (r : SenderReplies) (s : Sender) (calls : List Call)
      → Amounts calls
          (as_list s.segment.descriptor ++ as_list s.udp.socket_fd)
          []
          (as_list s.segment.address)
          []
          []
          []
      → Gives r calls (some (give r s))
  unfolding behind give move_engine request_stop destroy_engine move_handle destroy_segment
      close_shm unmap_address close_opened
  give-Gives r s calls held = rw (append-nil calls) (
      settled held
        (Amounts-append (close_socket-Amounts s.udp.socket_fd)
          (destroy_segment-Amounts munmap close s.segment))
        (reverse-as_list s.segment.descriptor s.udp.socket_fd) refl refl)

  with_session-Gives :
      (r : SenderReplies) (config : SenderConfig) (ds : List SockaddrIn) (segment : Segment)
      (ingress : SpscRing) (udp : UdpSender) (id : Option (Option ℕ)) (calls : List Call)
      → Amounts calls
          (as_list segment.descriptor ++ as_list udp.socket_fd)
          []
          (as_list segment.address)
          []
          []
          []
      → Gives r calls (with_session r config ds segment ingress udp id)
  unfolding behind with_session new_sender
  with_session-Gives r config ds segment ingress udp none calls held = tt
  with_session-Gives r config ds segment ingress udp (some none) calls held =
      settled held
        (Amounts-append (close_socket-Amounts udp.socket_fd)
          (destroy_segment-Amounts r.munmap r.close segment))
        (reverse-as_list segment.descriptor udp.socket_fd) refl refl
  with_session-Gives r config ds segment ingress udp (some (some id)) calls held =
      give-Gives r (new_sender config segment ingress udp ds id) calls held

  -- Calls behind calls.
  Gives-behind :
      (r : SenderReplies) (cs ds : List Call) (started : Started (Expected Sender InitError))
      → Gives r (cs ++ ds) started
      → Gives r cs (behind ds started)
  unfolding behind
  Gives-behind r cs ds none g = tt
  Gives-behind r cs ds (some (unexpected e, calls)) g = rw (sym (append_assoc cs ds calls)) g
  Gives-behind r cs ds (some (value s, calls)) g = rw (sym (append_assoc cs ds calls)) g

  with_socket-Gives :
      (p : Platform) (r : SenderReplies) (config : SenderConfig) (ds : List SockaddrIn)
      (segment : Segment) (ingress : SpscRing) (opened : Expected UdpSender UdpError × List Call)
      (calls : List Call)
      → IsOpened opened
      → Amounts calls (as_list segment.descriptor) [] (as_list segment.address) [] [] []
      → Gives r calls (with_socket p r config ds segment ingress opened)
  unfolding with_socket behind
  with_socket-Gives p r config ds segment ingress (unexpected e, more) calls opened held =
      settled held (Amounts-append opened (destroy_segment-Amounts r.munmap r.close segment))
        (reverse-one segment.descriptor) refl refl
  with_socket-Gives p r config ds segment ingress (value udp, more) calls opened held =
      Gives-behind r calls more
        (with_session r config ds segment ingress udp (draw_id p.errno 4 r.draws))
        (with_session-Gives r config ds segment ingress udp (draw_id p.errno 4 r.draws)
          (calls ++ more) (also_opened held opened))

  with_ring-Gives :
      (p : Platform) (r : SenderReplies) (config : SenderConfig) (ds : List SockaddrIn)
      (segment : Segment) (attached : Expected SpscRing RingError) (calls : List Call)
      → Amounts calls (as_list segment.descriptor) [] (as_list segment.address) [] [] []
      → Gives r calls (with_ring p r config ds segment attached)
  unfolding with_ring behind
  with_ring-Gives p r config ds segment (unexpected e) calls held =
      settled held (destroy_segment-Amounts r.munmap r.close segment)
        (reverse-one segment.descriptor) refl refl
  with_ring-Gives p r config ds segment (value ingress) calls held =
      with_socket-Gives p r config ds segment ingress (open_sender r.socket) calls
        (open_sender-IsOpened r.socket) held

  with_segment-EndsTidy :
      (p : Platform) (r : SenderReplies) (contents : Memory) (config : SenderConfig)
      (ds : List SockaddrIn) (made : Made)
      → IsAttached made
      → EndsTidy munmap close r (with_segment p r contents config ds made)
  unfolding with_segment
  with_segment-EndsTidy p r contents config ds (unexpected e, calls) (d, held) =
      IsTidy-one d [] held
  with_segment-EndsTidy p r contents config ds (value segment, calls) (held, _) =
      with_ring-Gives p r config ds segment (attach (bytes segment contents)) calls held

  with_destinations-EndsTidy :
      (p : Platform) (r : SenderReplies) (contents : Memory) (config : SenderConfig)
      (ds : Expected (List SockaddrIn) InitError)
      → EndsTidy munmap close r (with_destinations p r contents config ds)
  unfolding with_destinations
  with_destinations-EndsTidy p r contents config (unexpected e) =
      IsTidy-one none [] (Amounts_lem [])
  with_destinations-EndsTidy p r contents config (value ds) =
      with_segment-EndsTidy p r contents config ds
        (attach_shm p.segment_errno r.segment config.ingress_shm_name)
        (attach_shm-IsAttached p.segment_errno r.segment config.ingress_shm_name)

  -- Whatever the system calls return, a sender whose start fails, at whichever step, has made one
  -- `close` call on each descriptor that it has opened, in the reverse order, and one `munmap` call on
  -- the memory that it has mapped, and no other such call. The same holds of a start that succeeds
  -- together with the destruction of its sender.
  pub initialize-EndsTidy :
      (p : Platform) (r : SenderReplies) (contents : Memory) (config : SenderConfig)
      → EndsTidy munmap close r (initialize p r contents config)
  unfolding initialize
  initialize-EndsTidy p r contents config = elim (Bool-cases (is_config_invalid config)) [
    | inl bad ↦ rw bad (IsTidy-one none [] (Amounts_lem []))
    | inr good ↦ rw good (
        with_destinations-EndsTidy p r contents config
          (parse_destinations p.inet_pton config.receivers))
  ]
