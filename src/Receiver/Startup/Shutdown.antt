-- ===== src/Receiver/Startup/Shutdown.antt =====
-- src/receiver/receiver.cpp: the members that end the life of a receiver.
use low_latency_event_engine.Base.{ℕ, true, if◌then◌else◌, List, [], ◌++◌}
use low_latency_event_engine.Os.{Reply, Call}
use low_latency_event_engine.Ring.Layout.{Memory}
use low_latency_event_engine.Ring.Setup.{move_handle}
use low_latency_event_engine.Ring.Ops.{close_publication}
use low_latency_event_engine.Segment.{Segment, SegmentErrno}
use low_latency_event_engine.Segment.Lifetime.{move_segment, unlink, destroy_segment}
use low_latency_event_engine.Stats.{EngineStats}
use low_latency_event_engine.Transport.Sockets.{move_receiver, close_socket}
use low_latency_event_engine.Receiver.{Receiver}

-- `request_stop`.
unfoldable pub request_stop : Receiver → Receiver
request_stop r = record r { stop_requested = true }

-- `stats`.
abbrev pub stats : Receiver → EngineStats
stats r = r.stats

-- `local_port`.
abbrev pub local_port : Receiver → ℕ
local_port r = r.udp.local_port

-- The move constructor: the new receiver, and the other behind it. C++ leaves the configuration of the
-- other open; here it stays.
unfoldable pub move_engine : Receiver → Receiver × Receiver
move_engine other =
    let (segment, segment') = move_segment other.segment in
    let (egress, egress') = move_handle other.egress in
    let (udp, udp') = move_receiver other.udp in
    (
      record other { segment = segment; egress = egress; udp = udp },
      request_stop (record other { segment = segment'; egress = egress'; udp = udp' }),
    )

-- The body of `~Receiver`: the segment, the memory and the calls behind it.
unfoldable pub retire : SegmentErrno → Reply → Receiver → Memory → Segment × Memory × List Call
retire errno shm_unlink r m =
    if r.segment.owner
    then (let (_, m') = close_publication r.egress m in
        let (_, segment, calls) = unlink errno shm_unlink r.segment in (segment, m', calls))
    else (r.segment, m, [])

-- `~Receiver`: its body, then the members in reverse, of which only the socket and the segment call
-- the system.
unfoldable pub destroy_engine :
    SegmentErrno → Reply → Reply → Reply → Receiver → Memory → Memory × List Call
destroy_engine errno shm_unlink munmap close r m =
    let (segment, m', calls) = retire errno shm_unlink r m in
    (m', calls ++ close_socket r.udp.socket_fd ++ destroy_segment munmap close segment)
