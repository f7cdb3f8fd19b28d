-- ===== src/Receiver/Startup.antt =====
-- include/lle/receiver.hpp and src/receiver/receiver.cpp: `initialize`, the move constructor, the
-- destructor and `request_stop`. A failure destroys the local objects in the reverse order of their
-- construction.
mod Tests
pub mod Cleanup
pub mod Moves
pub mod Fresh
pub mod Lifetime
pub mod Shutdown
use low_latency_event_engine.Base.{
  ℕ, Bool, true, false, not, ◌||◌, if◌then◌else◌, is_minus_one, is_zero_int, is_empty, List, [],
  ◌∷◌, ◌++◌, Option, none, some, Expected, value, unexpected,
}
use low_latency_event_engine.Config.{ReceiverConfig, InitError, is_best_effort}
use low_latency_event_engine.Os.{Name, Reply, Call}
use low_latency_event_engine.Ring.Layout.{Memory}
use low_latency_event_engine.Ring.Setup as Ring
use low_latency_event_engine.Ring.Setup.{RingError, SpscRing, required_bytes}
use low_latency_event_engine.Segment.{Segment, Replies, Made, create_shm}
use low_latency_event_engine.Segment.Lifetime.{destroy_segment, unlink}
use low_latency_event_engine.Startup.{Platform, Draw, Started, behind, draw_id, bytes}
use low_latency_event_engine.Stats.{no_stats}
use low_latency_event_engine.Gap.{new_detector}
use low_latency_event_engine.Transport.{SockaddrIn}
use low_latency_event_engine.Transport.Sockets.{
  c_str, UdpReceiver, BindReplies, Bound, bind_address, close_socket,
}
use low_latency_event_engine.Receiver.{Receiver}
use Shutdown.{move_engine, destroy_engine}

-- What the system calls of a start return, and those of its clean-up.
pub record ReceiverReplies : Type 0 where
  pub bind : BindReplies
  pub draws : List Draw
  pub segment : Replies
  pub munmap : Reply
  pub close : Reply

-- What a start gives, and the shared memory as it leaves it.
abbrev pub Result : Type 0
Result = Expected Receiver InitError × Memory

-- The condition of the first `InvalidConfig`.
unfoldable pub is_config_invalid : ReceiverConfig → Bool
is_config_invalid config =
    is_empty config.egress_shm_name
    || not (is_best_effort config.delivery_mode)
    || not (is_minus_one config.cpu)
    || not (is_zero_int config.busy_poll_us)

-- "0.0.0.0".
abbrev pub any_address : Name
any_address = 48 ∷ 46 ∷ 48 ∷ 46 ∷ 48 ∷ 46 ∷ 48 ∷ []

-- The text of the address to listen on.
abbrev pub listen_text : Name → Name
listen_text [] = any_address
listen_text (c ∷ cs) = c_str (c ∷ cs)

-- The private constructor.
unfoldable pub new_receiver : ReceiverConfig → Segment → SpscRing → UdpReceiver → Receiver
new_receiver config segment egress udp = record {
  config = config;
  segment = segment;
  egress = egress;
  udp = udp;
  stop_requested = false;
  stats = no_stats;
  gap_detector = new_detector;
}

-- The result of `initialize`: the new receiver is moved into it, and what that leaves is destroyed.
unfoldable pub give : Platform → ReceiverReplies → Receiver → Memory → Result × List Call
give p r made m =
    let (receiver, rest) = move_engine made in
    let (m', calls) = destroy_engine p.segment_errno r.segment.shm_unlink r.munmap r.close rest m in
    ((value receiver, m'), calls)

-- From `SpscRing::initialize` on, with the memory as it is then.
unfoldable pub with_ring :
    Platform
    → ReceiverReplies
    → ReceiverConfig
    → UdpReceiver
    → Segment
    → Expected SpscRing RingError
    → Memory
    → Result × List Call
with_ring p r config udp segment (unexpected error) m =
    let (_, segment', calls) = unlink p.segment_errno r.segment.shm_unlink segment in
    (
      (unexpected InitError.ring_error, m),
      calls ++ destroy_segment r.munmap r.close segment' ++ close_socket udp.socket_fd,
    )
with_ring p r config udp segment (value egress) m =
    give p r (new_receiver config segment egress udp) m

-- From `create_shm` on; `contents` is what the new shared memory holds.
unfoldable pub with_segment :
    Platform
    → ReceiverReplies
    → Memory
    → ReceiverConfig
    → UdpReceiver
    → ℕ
    → Made
    → Result × List Call
with_segment p r contents config udp instance_id (unexpected error, calls) =
    ((unexpected InitError.shared_memory, contents), calls ++ close_socket udp.socket_fd)
with_segment p r contents config udp instance_id (value segment, calls) =
    let (egress, m) = Ring.initialize (bytes segment contents) config.egress_ring instance_id in
    let (result, more) = with_ring p r config udp segment egress m in (result, calls ++ more)

-- From the loop over `getrandom` on.
unfoldable pub with_instance :
    Platform
    → ReceiverReplies
    → Memory
    → ReceiverConfig
    → ℕ
    → UdpReceiver
    → Option (Option ℕ)
    → Started Result
with_instance p r contents config size udp none = none
with_instance p r contents config size udp (some none) =
    some ((unexpected InitError.ring_error, contents), close_socket udp.socket_fd)
with_instance p r contents config size udp (some (some instance_id)) = some (
    with_segment p r contents config udp instance_id
      (create_shm p.segment_errno r.segment config.egress_shm_name size))

-- From `UdpReceiver::bind` on.
unfoldable pub with_socket :
    Platform → ReceiverReplies → Memory → ReceiverConfig → ℕ → Bound → Started Result
with_socket p r contents config size (unexpected error, calls) =
    some ((unexpected InitError.socket_error, contents), calls)
with_socket p r contents config size (value udp, calls) =
    behind calls (with_instance p r contents config size udp (draw_id p.errno 8 r.draws))

-- From `inet_pton` on.
unfoldable pub with_address :
    Platform → ReceiverReplies → Memory → ReceiverConfig → ℕ → Option ℕ → Started Result
with_address p r contents config size none =
    some ((unexpected InitError.address_resolution, contents), [])
with_address p r contents config size (some number) =
    with_socket p r contents config size
      (bind_address r.bind (record { is_inet = true; port = config.listen.port; address = number }))

-- From `required_bytes` on.
unfoldable pub with_size :
    Platform → ReceiverReplies → Memory → ReceiverConfig → Expected ℕ RingError → Started Result
with_size p r contents config (unexpected error) =
    some ((unexpected InitError.invalid_config, contents), [])
with_size p r contents config (value size) =
    with_address p r contents config size (p.inet_pton (listen_text config.listen.address))

-- `Receiver::initialize`.
unfoldable pub initialize : Platform → ReceiverReplies → Memory → ReceiverConfig → Started Result
initialize p r contents config =
    if is_config_invalid config
    then some ((unexpected InitError.invalid_config, contents), [])
    else with_size p r contents config (required_bytes config.egress_ring)
