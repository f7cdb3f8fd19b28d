-- ===== src/Receiver/Startup/Moves.antt =====
-- The end of a receiver of src/receiver/receiver.cpp: moves and the destructor.
use low_latency_event_engine.Base.{
  ◌≡◌, refl, ap, ◌∙◌, true, List, [], ◌∷◌, replicate, if◌then◌else◌,
}
use low_latency_event_engine.Protocol.Types.{max_packet_bytes}
use low_latency_event_engine.Ring.Layout.{Memory}
use low_latency_event_engine.Ring.Setup.{SpscRing, move_handle}
use low_latency_event_engine.Ring.Ops.{close_publication}
use low_latency_event_engine.Ring.Queue
use low_latency_event_engine.Ring.Linked.{IsLinked, queue_of}
use low_latency_event_engine.Ring.Refine.Release.{close_publication_refines}
use low_latency_event_engine.Segment.Lifetime.{
  destroy_segment, close_shm, unmap_address, close_opened,
}
use low_latency_event_engine.Transport.{Errno}
use low_latency_event_engine.Receiver.{Receiver, Turn, finish, run_turns, run}
use low_latency_event_engine.Receiver.Startup.Shutdown.{
  request_stop, move_engine, retire, destroy_engine,
}
use low_latency_event_engine.Receiver.Startup.Cleanup.{Ending, retire-owner}

-- A move gives the receiver as it was, and leaves one that can do no harm: its `run` returns at the
-- first turn and touches neither the ring nor the counters, and its destructor leaves the memory and
-- makes no system call.
pub move_engine-harmless :
    (errno : Errno) (e : Ending) (other : Receiver) (m : Memory) (t : Turn) (ts : List Turn)
    → let (moved, rest) = move_engine other in
      (moved ≡ other)
      × (run errno rest m (t ∷ ts)
          ≡ (true, record { receiver = rest; memory = m; packet = replicate max_packet_bytes 0 }))
      × (destroy_engine e.errno e.shm_unlink e.munmap e.close rest m ≡ (m, []))
unfolding move_engine request_stop move_handle run run_turns finish close_publication retire
    destroy_engine destroy_segment close_shm unmap_address close_opened
move_engine-harmless errno e other m t ts = (refl, refl, refl)

-- The destructor of a receiver that owns its segment closes the egress ring: the events that are in it
-- stay, and nothing more can be published.
pub destroy_engine-closes :
    (e : Ending) (s : Receiver) (c : SpscRing) (m : Memory)
    → s.segment.owner ≡ true
    → s.egress.initializer ≡ true
    → IsLinked s.egress c m
    → let (m', _) = destroy_engine e.errno e.shm_unlink e.munmap e.close s m in
      (queue_of s.egress c m' ≡ Queue.close (queue_of s.egress c m)) × IsLinked s.egress c m'
unfolding destroy_engine
destroy_engine-closes e s c m owner creator linked =
    let (_, closed, linked', _, _) = close_publication_refines linked s.egress in
    let queue = queue_of s.egress c m in
    rw (retire-owner e s m owner)
      (closed ∙ ap (λ b. if b then Queue.close queue else queue) creator, linked')
