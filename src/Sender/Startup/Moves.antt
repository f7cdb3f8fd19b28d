-- ===== src/Sender/Startup/Moves.antt =====
-- Moves of a sender of src/sender/sender.cpp.
use low_latency_event_engine.Base.{◌≡◌, refl, true, List, [], ◌∷◌, replicate}
use low_latency_event_engine.Os.{Reply}
use low_latency_event_engine.Ring.Layout.{Memory}
use low_latency_event_engine.Ring.Setup.{move_handle}
use low_latency_event_engine.Segment.Lifetime.{
  destroy_segment, close_shm, unmap_address, close_opened,
}
use low_latency_event_engine.Sender.{Sender, Turn, run_turns, run}
use low_latency_event_engine.Sender.Startup.{request_stop, move_engine, destroy_engine}

-- A move gives the sender as it was, and leaves one that can do no harm: its `run` returns at the first
-- turn, sends nothing and does not touch the ring or the counters, and its destructor makes no system
-- call.
pub move_engine-inert :
    (munmap close : Reply) (other : Sender) (m : Memory) (t : Turn) (ts : List Turn)
    → let (moved, rest) = move_engine other in
      (moved ≡ other)
      × (run rest m (t ∷ ts) ≡ (
        true,
        record {
          sender = rest;
          memory = m;
          output = replicate other.config.max_datagram_bytes 0;
          sent = [];
        },
      ))
      × (destroy_engine munmap close rest ≡ [])
unfolding move_engine request_stop move_handle run run_turns destroy_engine destroy_segment
    close_shm unmap_address close_opened
move_engine-inert munmap close other m t ts = (refl, refl, refl)
