-- ===== src/Smoke/Tests.antt =====
-- The test program at concrete arguments.
use low_latency_event_engine.Base.{◌≡◌, ◌↔◌, refl, true, List, [], ◌∷◌, none, some}
use low_latency_event_engine.Os.{Name, returned}
use low_latency_event_engine.Transport.{recv_failed, send_to}
use low_latency_event_engine.Transport.Sockets.{ipv4, open_sender}
use low_latency_event_engine.Smoke.{
  World, from_digits, from_chars, check_port, parse_port, send_text, with_port, after_send,
  after_open, after_address, send_dm, run_mode, main,
}
use low_latency_event_engine.Smoke.Ports.{IsPort, parse_port_iff}

abbrev world : World
world = record {
  inet_pton = λ _. some 0x7f00_0001;
  inet_ntop = λ _. none;
  errno = record { eintr = 4; eio = 5 };
  bind = record { socket = returned 3; bind = returned 0; getsockname = returned 0; port = 9000 };
  poll = record { result = returned 0; readable = true };
  recv = recv_failed 11;
  socket = returned 3;
  sendto = returned 2;
}

-- "9000".
abbrev port : Name
port = 57 ∷ 48 ∷ 48 ∷ 48 ∷ []

-- send 9000 1 hi
abbrev arguments : List Name
arguments = [] ∷ send_text ∷ port ∷ (49 ∷ []) ∷ (104 ∷ 105 ∷ []) ∷ []

sends : (main world arguments).exit_code ≡ 0
unfolding main run_mode with_port parse_port from_chars from_digits check_port send_dm after_address
    after_open after_send ipv4 open_sender send_to
sends = refl

parse_port_iff_example : (parse_port port ≡ some 9000) ↔ IsPort port 9000
parse_port_iff_example = parse_port_iff port 9000
