-- ===== src/Transport/Sockets.antt =====
-- Addresses, and the life of the sockets of src/transport/udp_sender.cpp and udp_receiver.cpp.
use low_latency_event_engine.Base.{
  ℕ, true, not, ◌==◌, if◌then◌else◌, List, [], ◌∷◌, Option, none, some, u16, Expected, value,
  unexpected,
}
use low_latency_event_engine.Os.{
  Name, Call, socket_opened, socket_bound, socket_named, closed_descriptor,
}
use low_latency_event_engine.Transport.{Reply, failed, returned, UdpErrorCode, UdpError, SockaddrIn}

-- `std::string::c_str()` as a callee reads it: up to the first null character.
abbrev pub c_str : Name → Name
c_str [] = []
c_str (c ∷ cs) = if c == 0 then [] else c ∷ c_str cs

abbrev pub udp_error : UdpErrorCode → ℕ → UdpError
udp_error code error_number = record { code = code; error_number = error_number }

-- `UdpAddress::ipv4`, with `inet_pton` as an argument.
unfoldable pub ipv4 : (Name → Option ℕ) → Name → ℕ → Expected SockaddrIn UdpError
ipv4 inet_pton address port =
    if port == 0
    then unexpected (udp_error UdpErrorCode.invalid_port 0)
    else elim (inet_pton (c_str address)) [
      | none ↦ unexpected (udp_error UdpErrorCode.invalid_address 0)
      | some number ↦ value (record { is_inet = true; port = port; address = number })
    ]

-- `UdpSender`: `none` is the descriptor -1.
pub record UdpSender : Type 0 where
  pub socket_fd : Option ℕ

-- `UdpReceiver`.
pub record UdpReceiver : Type 0 where
  pub socket_fd : Option ℕ
  pub local_port : ℕ

-- `UdpSender::open`.
unfoldable pub open_sender : Reply → Expected UdpSender UdpError × List Call
open_sender (failed errno) =
    (unexpected (udp_error UdpErrorCode.socket_error errno), socket_opened (failed errno) ∷ [])
open_sender (returned fd) =
    (value (record { socket_fd = some fd }), socket_opened (returned fd) ∷ [])

-- `UdpSender(UdpSender&&)`: the new object, and the other behind it.
abbrev pub move_sender : UdpSender → UdpSender × UdpSender
move_sender other = (other, record { socket_fd = none })

-- `~UdpSender`.
abbrev pub close_socket : Option ℕ → List Call
close_socket none = []
close_socket (some fd) = closed_descriptor fd ∷ []

-- What the calls of `bind` return; `getsockname` also gives the port.
pub record BindReplies : Type 0 where
  pub socket : Reply
  pub bind : Reply
  pub getsockname : Reply
  pub port : ℕ

abbrev pub Bound : Type 0
Bound = Expected UdpReceiver UdpError × List Call

-- `UdpReceiver::bind` from `getsockname` on.
unfoldable pub bind_named : ℕ → ℕ → Reply → Bound
bind_named fd port (failed errno) = (
  unexpected (udp_error UdpErrorCode.bind_error errno),
  socket_named fd ∷ closed_descriptor fd ∷ [],
)
bind_named fd port (returned _) =
    (value (record { socket_fd = some fd; local_port = port }), socket_named fd ∷ [])

-- `UdpReceiver::bind` from `::bind` on.
unfoldable pub bind_socket : BindReplies → ℕ → Reply → Bound
bind_socket r fd (failed errno) = (
  unexpected (udp_error UdpErrorCode.bind_error errno),
  socket_bound fd ∷ closed_descriptor fd ∷ [],
)
bind_socket r fd (returned _) =
    let (made, calls) = bind_named fd r.port r.getsockname in (made, socket_bound fd ∷ calls)

-- `UdpReceiver::bind` from `socket` on.
unfoldable pub bind_opened : BindReplies → Reply → Bound
bind_opened r (failed errno) =
    (unexpected (udp_error UdpErrorCode.socket_error errno), socket_opened (failed errno) ∷ [])
bind_opened r (returned fd) =
    let (made, calls) = bind_socket r fd r.bind in (made, socket_opened (returned fd) ∷ calls)

-- `UdpReceiver::bind(const UdpAddress&)`.
unfoldable pub bind_address : BindReplies → SockaddrIn → Bound
bind_address r address =
    if not address.is_inet
    then (unexpected (udp_error UdpErrorCode.invalid_address 0), [])
    else bind_opened r r.socket

-- `UdpReceiver::bind(std::uint16_t)`: to all local addresses.
unfoldable pub bind_port : BindReplies → ℕ → Bound
bind_port r port = bind_address r (record { is_inet = true; port = u16 port; address = 0 })

-- `UdpReceiver(UdpReceiver&&)`: the port stays.
abbrev pub move_receiver : UdpReceiver → UdpReceiver × UdpReceiver
move_receiver other = (other, record other { socket_fd = none })
