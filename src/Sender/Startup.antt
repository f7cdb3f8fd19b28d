-- ===== src/Sender/Startup.antt =====
-- include/lle/sender.hpp and src/sender/sender.cpp: `initialize`, the move constructor, the destructor
-- and `request_stop`. A failure destroys the local objects in the reverse order of their
-- construction.
mod Tests
pub mod Cleanup
pub mod Moves
pub mod Fresh
pub mod Lifetime
use low_latency_event_engine.Base.{
  ℕ, Bool, true, false, not, ◌||◌, ltb, if◌then◌else◌, is_minus_one, is_empty, List, [], ◌∷◌, ◌++◌,
  Option, none, some, Expected, value, unexpected,
}
use low_latency_event_engine.Config.{Endpoint, SenderConfig, InitError, is_best_effort}
use low_latency_event_engine.Os.{Name, Reply, Call}
use low_latency_event_engine.Protocol.Types.{max_packet_bytes, min_data_packet_bytes}
use low_latency_event_engine.Ring.Layout.{Memory}
use low_latency_event_engine.Ring.Setup.{RingError, SpscRing, move_handle, attach}
use low_latency_event_engine.Segment.{Segment, Replies, Made}
use low_latency_event_engine.Segment.Lifetime.{attach_shm, move_segment, destroy_segment}
use low_latency_event_engine.Startup.{Platform, Draw, Started, behind, draw_id, bytes}
use low_latency_event_engine.Stats.{EngineStats, no_stats}
use low_latency_event_engine.Transport.{SockaddrIn, UdpError}
use low_latency_event_engine.Transport.Sockets.{
  UdpSender, ipv4, open_sender, move_sender, close_socket,
}
use low_latency_event_engine.Sender.{Sender}

-- What the system calls of a start return, and those of the destructor of the segment.
pub record SenderReplies : Type 0 where
  pub segment : Replies
  pub socket : Reply
  pub draws : List Draw
  pub munmap : Reply
  pub close : Reply

-- The condition of `InvalidConfig`.
unfoldable pub is_config_invalid : SenderConfig → Bool
is_config_invalid config =
    is_empty config.ingress_shm_name
    || is_empty config.receivers
    || ltb config.max_datagram_bytes min_data_packet_bytes
    || ltb max_packet_bytes config.max_datagram_bytes
    || not (is_best_effort config.delivery_mode)
    || not (is_minus_one config.cpu)

-- The loop over the receivers.
unfoldable pub parse_destinations :
    (Name → Option ℕ) → List Endpoint → Expected (List SockaddrIn) InitError
parse_destinations inet_pton [] = value []
parse_destinations inet_pton (e ∷ es) = elim (ipv4 inet_pton e.address e.port) [
  | unexpected _ ↦ unexpected InitError.address_resolution
  | value destination ↦ elim (parse_destinations inet_pton es) [
    | unexpected error ↦ unexpected error
    | value destinations ↦ value (destination ∷ destinations)
  ]
]

-- The private constructor.
unfoldable pub new_sender :
    SenderConfig → Segment → SpscRing → UdpSender → List SockaddrIn → ℕ → Sender
new_sender config segment ingress udp destinations session_id = record {
  config = config;
  segment = segment;
  ingress = ingress;
  udp = udp;
  destinations = destinations;
  session_id = session_id;
  packet_sequence = 1;
  stop_requested = false;
  stats = no_stats;
}

-- `request_stop`.
unfoldable pub request_stop : Sender → Sender
request_stop s = record s { stop_requested = true }

-- `stats`.
abbrev pub stats : Sender → EngineStats
stats s = s.stats

-- The move constructor: the new sender, and the other behind it. C++ leaves the configuration and the
-- destinations of the other open; here they stay.
unfoldable pub move_engine : Sender → Sender × Sender
move_engine other =
    let (segment, segment') = move_segment other.segment in
    let (ingress, ingress') = move_handle other.ingress in
    let (udp, udp') = move_sender other.udp in
    (
      record other { segment = segment; ingress = ingress; udp = udp },
      request_stop (record other { segment = segment'; ingress = ingress'; udp = udp' }),
    )

-- `~Sender`: the members in reverse, of which only the socket and the segment call the system.
unfoldable pub destroy_engine : Reply → Reply → Sender → List Call
destroy_engine munmap close s =
    close_socket s.udp.socket_fd ++ destroy_segment munmap close s.segment

-- The result of `initialize`: the new sender is moved into it, and what that leaves is destroyed.
unfoldable pub give : SenderReplies → Sender → Expected Sender InitError × List Call
give r made = let (s, rest) = move_engine made in (value s, destroy_engine r.munmap r.close rest)

-- From the loop over `getrandom` on.
unfoldable pub with_session :
    SenderReplies
    → SenderConfig
    → List SockaddrIn
    → Segment
    → SpscRing
    → UdpSender
    → Option (Option ℕ)
    → Started (Expected Sender InitError)
with_session r config destinations segment ingress udp none = none
with_session r config destinations segment ingress udp (some none) = some (
  unexpected InitError.session_id_error,
  close_socket udp.socket_fd ++ destroy_segment r.munmap r.close segment,
)
with_session r config destinations segment ingress udp (some (some session_id)) =
    some (give r (new_sender config segment ingress udp destinations session_id))

-- From `UdpSender::open` on.
unfoldable pub with_socket :
    Platform
    → SenderReplies
    → SenderConfig
    → List SockaddrIn
    → Segment
    → SpscRing
    → Expected UdpSender UdpError × List Call
    → Started (Expected Sender InitError)
with_socket p r config destinations segment ingress (unexpected error, calls) =
    some (unexpected InitError.socket_error, calls ++ destroy_segment r.munmap r.close segment)
with_socket p r config destinations segment ingress (value udp, calls) =
    behind calls
      (with_session r config destinations segment ingress udp (draw_id p.errno 4 r.draws))

-- From `SpscRing::attach` on.
unfoldable pub with_ring :
    Platform
    → SenderReplies
    → SenderConfig
    → List SockaddrIn
    → Segment
    → Expected SpscRing RingError
    → Started (Expected Sender InitError)
with_ring p r config destinations segment (unexpected error) =
    some (unexpected InitError.ring_error, destroy_segment r.munmap r.close segment)
with_ring p r config destinations segment (value ingress) =
    with_socket p r config destinations segment ingress (open_sender r.socket)

-- From `attach_shm` on; `contents` is what the shared memory holds.
unfoldable pub with_segment :
    Platform
    → SenderReplies
    → Memory
    → SenderConfig
    → List SockaddrIn
    → Made
    → Started (Expected Sender InitError)
with_segment p r contents config destinations (unexpected error, calls) =
    some (unexpected InitError.shared_memory, calls)
with_segment p r contents config destinations (value segment, calls) =
    behind calls (with_ring p r config destinations segment (attach (bytes segment contents)))

-- From the loop over the receivers on.
unfoldable pub with_destinations :
    Platform
    → SenderReplies
    → Memory
    → SenderConfig
    → Expected (List SockaddrIn) InitError
    → Started (Expected Sender InitError)
with_destinations p r contents config (unexpected error) = some (unexpected error, [])
with_destinations p r contents config (value destinations) =
    with_segment p r contents config destinations
      (attach_shm p.segment_errno r.segment config.ingress_shm_name)

-- `Sender::initialize`.
unfoldable pub initialize :
    Platform → SenderReplies → Memory → SenderConfig → Started (Expected Sender InitError)
initialize p r contents config =
    if is_config_invalid config
    then some (unexpected InitError.invalid_config, [])
    else with_destinations p r contents config (parse_destinations p.inet_pton config.receivers)
