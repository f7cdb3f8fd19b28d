-- ===== src/Smoke.antt =====
-- apps/udp_smoke.cpp: the test program for one datagram. Its arguments are C strings; what it prints
-- is a list of messages, not their texts.
pub mod Ports
pub mod Ending
mod Tests
use low_latency_event_engine.Base.{
  ℕ, zero, suc, ◌+◌, ◌*◌, ◌-◌, ◌^◌, Bool, true, false, not, ◌&&◌, ◌||◌, ◌==◌, ltb, leb,
  if◌then◌else◌, ℤ, pos, negsuc, is_empty, List, [], ◌∷◌, ◌++◌, length, take, replicate, u16,
  Option, none, some, Expected, value, unexpected,
}
use low_latency_event_engine.Os.{Name, Reply, Call}
use low_latency_event_engine.Transport.{
  UdpError, SockaddrIn, ReceivedDatagram, Errno, PollReply, RecvReply, receive, send_to,
}
use low_latency_event_engine.Transport.Sockets.{
  c_str, ipv4, UdpSender, open_sender, UdpReceiver, BindReplies, bind_port, Bound, close_socket,
}

abbrev pub buffer_size : ℕ
buffer_size = 1024

abbrev pub max_message_size : ℕ
max_message_size = 256

-- A decimal digit.
abbrev pub is_digit : ℕ → Bool
is_digit c = leb 48 c && leb c 57

-- The digits at the front of a text, and what is behind them.
abbrev pub span_digits : Name → Name × Name
span_digits [] = ([], [])
span_digits (c ∷ cs) =
    let (digits, rest) = span_digits cs in if is_digit c then (c ∷ digits, rest) else ([], c ∷ cs)

-- The number of a list of digits behind the number `n`.
abbrev pub decimal : ℕ → Name → ℕ
decimal n [] = n
decimal n (c ∷ cs) = decimal (n * 10 + (c - 48)) cs

abbrev pub negate : ℕ → ℤ
negate zero = pos 0
negate (suc n) = negsuc n

-- `std::from_chars` for an `int`: the number and the rest of the text; `none` is an error.
unfoldable pub from_digits : Bool → Name × Name → Option (ℤ × Name)
from_digits minus (digits, rest) =
    let n = decimal 0 digits in
    if is_empty digits
    then none
    else if minus
    then (if ltb (2 ^ 31) n then none else some (negate n, rest))
    else if ltb (2 ^ 31 - 1) n
    then none
    else some (pos n, rest)

unfoldable pub from_chars : Name → Option (ℤ × Name)
from_chars [] = none
from_chars (c ∷ cs) =
    if c == 45 then from_digits true (span_digits cs) else from_digits false (span_digits (c ∷ cs))

-- The test of the number and of the rest.
unfoldable pub check_port : ℤ × Name → Option ℕ
check_port (pos n, rest) = if not (is_empty rest) || ltb n 1 || ltb 65535 n then none else some n
check_port (negsuc n, rest) = none

-- `parse_port`: `none` where it throws.
unfoldable pub parse_port : Name → Option ℕ
parse_port text = elim (from_chars text) [ none ↦ none | some parsed ↦ check_port parsed ]

-- What the program prints.
pub data Message : Type 0 where
  usage invalid_mode message_too_large address_unreadable : Message
  invalid_port : Name → Message
  udp_failed : UdpError → Message
  bound_to : (port : ℕ) → Message
  received_packet : (size : ℕ) (address : Name) (port : ℕ) (content : List ℕ) → Message
  message_sent : (address : Name) (port : ℕ) → Message

-- What the calls of the system return; `inet_ntop` gives the text of an address.
pub record World : Type 0 where
  pub inet_pton : Name → Option ℕ
  pub inet_ntop : ℕ → Option Name
  pub errno : Errno
  pub bind : BindReplies
  pub poll : PollReply
  pub recv : RecvReply
  pub socket : Reply
  pub sendto : Reply

-- How a program ends: its exit code, what it has printed, the calls that concern descriptors, and the
-- datagrams that it has handed to `sendto`.
pub record Ended : Type 0 where
  pub exit_code : ℕ
  pub printed : List Message
  pub calls : List Call
  pub sent : List (List ℕ × SockaddrIn)

abbrev pub failing : List Message → List Call → Ended
failing printed calls = record { exit_code = 1; printed = printed; calls = calls; sent = [] }

-- `receive_dm` from `inet_ntop` on.
unfoldable pub print_packet :
    ReceivedDatagram → List ℕ → List Message → List Call → Option Name → Ended
print_packet datagram buffer printed calls none =
    failing (printed ++ (address_unreadable ∷ [])) calls
print_packet datagram buffer printed calls (some text) = record {
  exit_code = 0;
  printed =
      printed
      ++ (received_packet datagram.size text datagram.peer.port (take datagram.size buffer) ∷ []);
  calls = calls;
  sent = [];
}

-- `receive_dm` from `receive` on.
unfoldable pub after_datagram :
    World → List Message → List Call → Expected ReceivedDatagram UdpError × List ℕ → Ended
after_datagram w printed calls (unexpected error, buffer) =
    failing (printed ++ (udp_failed error ∷ [])) calls
after_datagram w printed calls (value datagram, buffer) =
    print_packet datagram buffer printed calls (w.inet_ntop datagram.peer.address)

-- `receive_dm` from `UdpReceiver::bind` on; the receiver is destroyed in the end.
unfoldable pub after_bind : World → Bound → Ended
after_bind w (unexpected error, calls) = failing (udp_failed error ∷ []) calls
after_bind w (value receiver, calls) =
    after_datagram w (bound_to receiver.local_port ∷ []) (calls ++ close_socket receiver.socket_fd)
      (receive w.errno w.poll w.recv (replicate buffer_size 0) (some 10000))

-- `receive_dm`.
unfoldable pub receive_dm : World → ℕ → Ended
receive_dm w port = after_bind w (bind_port w.bind port)

-- `send_dm` from `send_to` on.
unfoldable pub after_send : ℕ → Name → List ℕ → SockaddrIn → List Call → Option UdpError → Ended
after_send port ip bytes destination calls (some error) = record {
  exit_code = 1;
  printed = udp_failed error ∷ [];
  calls = calls;
  sent = (bytes, destination) ∷ [];
}
after_send port ip bytes destination calls none = record {
  exit_code = 0;
  printed = message_sent ip port ∷ [];
  calls = calls;
  sent = (bytes, destination) ∷ [];
}

-- `send_dm` from `UdpSender::open` on; the sender is destroyed in the end.
unfoldable pub after_open :
    World → ℕ → Name → List ℕ → SockaddrIn → Expected UdpSender UdpError × List Call → Ended
after_open w port ip bytes destination (unexpected error, calls) =
    failing (udp_failed error ∷ []) calls
after_open w port ip bytes destination (value sender, calls) =
    after_send port ip bytes destination (calls ++ close_socket sender.socket_fd)
      (send_to w.sendto bytes)

-- `send_dm` from `UdpAddress::ipv4` on.
unfoldable pub after_address : World → ℕ → Name → List ℕ → Expected SockaddrIn UdpError → Ended
after_address w port ip bytes (unexpected error) = failing (udp_failed error ∷ []) []
after_address w port ip bytes (value destination) =
    after_open w port ip bytes destination (open_sender w.socket)

-- `send_dm`.
unfoldable pub send_dm : World → ℕ → Name → Name → Ended
send_dm w port ip message =
    let bytes = c_str message in
    if ltb max_message_size (length bytes)
    then failing (message_too_large ∷ []) []
    else after_address w port ip bytes (ipv4 w.inet_pton ip port)

abbrev pub same_text : Name → Name → Bool
same_text [] [] = true
same_text [] (d ∷ ds) = false
same_text (c ∷ cs) [] = false
same_text (c ∷ cs) (d ∷ ds) = c == d && same_text cs ds

-- "receive" and "send".
abbrev pub receive_text : Name
receive_text = 114 ∷ 101 ∷ 99 ∷ 101 ∷ 105 ∷ 118 ∷ 101 ∷ []

abbrev pub send_text : Name
send_text = 115 ∷ 101 ∷ 110 ∷ 100 ∷ []

-- A mode with a port: the `catch` block prints what `parse_port` throws.
unfoldable pub with_port : Name → (ℕ → Ended) → Option ℕ → Ended
with_port text body none = failing (invalid_port text ∷ []) []
with_port text body (some port) = body (u16 port)

-- The modes of `main`, with the arguments behind the mode.
unfoldable pub run_mode : World → Name → List Name → Ended
run_mode w mode (port ∷ []) =
    if same_text mode receive_text
    then with_port port (receive_dm w) (parse_port port)
    else failing (invalid_mode ∷ []) []
run_mode w mode (port ∷ ip ∷ message ∷ []) =
    if same_text mode send_text
    then with_port port (λ n. send_dm w n ip message) (parse_port port)
    else failing (invalid_mode ∷ []) []
run_mode w mode [] = failing (invalid_mode ∷ []) []
run_mode w mode (port ∷ ip ∷ []) = failing (invalid_mode ∷ []) []
run_mode w mode (port ∷ ip ∷ message ∷ other ∷ more) = failing (invalid_mode ∷ []) []

-- `main`, with its arguments: the first is the name of the program.
unfoldable pub main : World → List Name → Ended
main w [] = failing (usage ∷ []) []
main w (program ∷ []) = failing (usage ∷ []) []
main w (program ∷ mode ∷ rest) = run_mode w mode rest
