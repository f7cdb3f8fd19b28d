-- ===== src/Transport.antt =====
-- include/lle/transport/udp_types.hpp, udp_sender.hpp and udp_receiver.hpp, and src/transport: the
-- UDP sockets. The system calls are not code of this repository, so what each returns is an
-- argument.
pub mod Sockets
pub mod Ownership
use low_latency_event_engine.Base.{
  ℕ, Bool, not, ◌==◌, ◌!=◌, if◌then◌else◌, List, Option, none, some, length, copy_at, Expected,
  value, unexpected,
}
pub use low_latency_event_engine.Os.{Reply, failed, returned}

-- `UdpErrorCode`.
pub data UdpErrorCode : Type 0 where
  invalid_address invalid_port socket_error bind_error poll_error timeout send_error receive_error
        datagram_too_large :
      UdpErrorCode

-- `UdpError`.
pub record UdpError : Type 0 where
  pub code : UdpErrorCode
  pub error_number : ℕ

-- `sockaddr_in`: whether its family is `AF_INET`, the port in host order, the address as a number.
pub record SockaddrIn : Type 0 where
  pub is_inet : Bool
  pub port : ℕ
  pub address : ℕ

-- `ReceivedDatagram`.
pub record ReceivedDatagram : Type 0 where
  pub size : ℕ
  pub peer : SockaddrIn

-- The error numbers of the platform that the code names.
pub record Errno : Type 0 where
  pub eintr : ℕ
  pub eio : ℕ

-- What `poll` returns, and whether it set `POLLIN` in `revents`.
pub record PollReply : Type 0 where
  pub result : Reply
  pub readable : Bool

-- What `recvmsg` returns: -1 with `errno`, or the bytes that it put at the front of the buffer, whether
-- it set `MSG_TRUNC`, and the sender's address.
pub data RecvReply : Type 0 where
  recv_failed : ℕ → RecvReply
  delivered : (bytes : List ℕ) (truncated : Bool) (peer : SockaddrIn) → RecvReply

abbrev pub Received : Type 0
Received = Expected ReceivedDatagram UdpError × List ℕ

-- The part of `receive` from `recvmsg` on.
unfoldable pub receive_message : RecvReply → List ℕ → Received
receive_message (recv_failed errno) buffer =
    (unexpected (record { code = UdpErrorCode.receive_error; error_number = errno }), buffer)
receive_message (delivered bytes truncated peer) buffer = (
  if truncated
      then unexpected (record { code = UdpErrorCode.datagram_too_large; error_number = 0 })
      else value (record { size = length bytes; peer = peer }),
  copy_at buffer 0 bytes,
)

-- The part of `receive` that waits: an error, or `none` where a datagram is there.
unfoldable pub wait_readable : Errno → PollReply → Option UdpError
wait_readable errno poll = elim poll.result [
  | failed e ↦ some (record { code = UdpErrorCode.poll_error; error_number = e })
  | returned ready ↦
      if ready == 0
      then some (record { code = UdpErrorCode.timeout; error_number = 0 })
      else if not poll.readable
      then some (record { code = UdpErrorCode.poll_error; error_number = errno.eio })
      else none
]

-- `UdpReceiver::receive`: its result, and the buffer as it leaves it. A timeout of `none` stands for a
-- negative number, which waits in `recvmsg` alone.
unfoldable pub receive : Errno → PollReply → RecvReply → List ℕ → Option ℕ → Received
receive errno poll recv buffer none = receive_message recv buffer
receive errno poll recv buffer (some timeout_ms) = elim (wait_readable errno poll) [
  | some error ↦ (unexpected error, buffer)
  | none ↦ receive_message recv buffer
]

-- `UdpSender::send_to`: `none` is success.
unfoldable pub send_to : Reply → List ℕ → Option UdpError
send_to (failed errno) datagram =
    some (record { code = UdpErrorCode.send_error; error_number = errno })
send_to (returned sent) datagram =
    if sent != length datagram
    then some (record { code = UdpErrorCode.send_error; error_number = 0 })
    else none
