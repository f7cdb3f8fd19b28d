-- ===== src/Smoke/Ending.antt =====
-- How apps/udp_smoke.cpp ends.
use low_latency_event_engine.Base.{
  ℕ, ◌≡◌, inl, inr, refl, sym, ◌∙◌, ltb, Bool-cases, List, [], ◌∷◌, ◌++◌, length, replicate, u16,
  Option, none, some, Expected, value, unexpected,
}
use mathlib.Core.List.{append-nil}
use low_latency_event_engine.Os.{Name, Call}
use low_latency_event_engine.Os.Ledger.{as_list, opens, closes, Amounts, Amounts-append}
use low_latency_event_engine.Transport.{UdpError, SockaddrIn, ReceivedDatagram, receive, send_to}
use low_latency_event_engine.Transport.Sockets.{
  c_str, ipv4, UdpSender, open_sender, bind_port, Bound, close_socket,
}
use low_latency_event_engine.Transport.Ownership.{
  IsBound, bind_address-IsBound, IsOpened, open_sender-IsOpened, close_socket-Amounts,
}
use low_latency_event_engine.Smoke.{
  World, Ended, Message, print_packet, after_datagram, after_bind, receive_dm, after_send,
  after_open, after_address, send_dm, same_text, receive_text, send_text, with_port, run_mode, main,
  parse_port, buffer_size, max_message_size,
}

-- Every descriptor that the program has opened is closed.
abbrev pub ClosesAll : Ended → Type 0
ClosesAll e = closes e.calls ≡ opens e.calls

both :
    (calls : List Call) (d : Option ℕ)
    → Amounts calls (as_list d) [] [] [] [] []
    → closes (calls ++ close_socket d) ≡ opens (calls ++ close_socket d)
both calls d held =
    let total = Amounts-append held (close_socket-Amounts d) in
    total.closing ∙ sym (append-nil (as_list d)) ∙ sym total.opening

after_datagram-ClosesAll :
    (w : World) (printed : List Message) (calls : List Call)
    (r : Expected ReceivedDatagram UdpError × List ℕ)
    → closes calls ≡ opens calls
    → ClosesAll (after_datagram w printed calls r)
unfolding after_datagram print_packet
after_datagram-ClosesAll w printed calls (unexpected error, buffer) h = h
after_datagram-ClosesAll w printed calls (value datagram, buffer) h =
    go (w.inet_ntop datagram.peer.address)
  where
    go : (text : Option Name) → ClosesAll (print_packet datagram buffer printed calls text)
    go none = h
    go (some text) = h

after_bind-ClosesAll : (w : World) (b : Bound) → IsBound b → ClosesAll (after_bind w b)
unfolding after_bind
after_bind-ClosesAll w (unexpected error, calls) (fd, held) = held.closing ∙ sym held.opening
after_bind-ClosesAll w (value receiver, calls) held =
    after_datagram-ClosesAll w _ (calls ++ close_socket receiver.socket_fd)
      (receive w.errno w.poll w.recv (replicate buffer_size 0) (some 10000))
      (both calls receiver.socket_fd held)

after_open-ClosesAll :
    (w : World) (port : ℕ) (ip : Name) (bytes : List ℕ) (d : SockaddrIn)
    (opened : Expected UdpSender UdpError × List Call)
    → IsOpened opened
    → ClosesAll (after_open w port ip bytes d opened)
unfolding after_open after_send
after_open-ClosesAll w port ip bytes d (unexpected error, calls) held =
    held.closing ∙ sym held.opening
after_open-ClosesAll w port ip bytes d (value sender, calls) held = go (send_to w.sendto bytes)
  where
    go :
        (r : Option UdpError)
        → ClosesAll (after_send port ip bytes d (calls ++ close_socket sender.socket_fd) r)
    go none = both calls sender.socket_fd held
    go (some error) = both calls sender.socket_fd held

after_address-ClosesAll :
    (w : World) (port : ℕ) (ip : Name) (bytes : List ℕ) (r : Expected SockaddrIn UdpError)
    → ClosesAll (after_address w port ip bytes r)
unfolding after_address
after_address-ClosesAll w port ip bytes (unexpected error) = refl
after_address-ClosesAll w port ip bytes (value d) =
    after_open-ClosesAll w port ip bytes d (open_sender w.socket) (open_sender-IsOpened w.socket)

send_dm-ClosesAll :
    (w : World) (port : ℕ) (ip message : Name) → ClosesAll (send_dm w port ip message)
unfolding send_dm
send_dm-ClosesAll w port ip message =
    elim (Bool-cases (ltb max_message_size (length (c_str message)))) [
      | inl large ↦ rw large refl
      | inr small ↦
          rw small (after_address-ClosesAll w port ip (c_str message) (ipv4 w.inet_pton ip port))
    ]

receive_dm-ClosesAll : (w : World) (port : ℕ) → ClosesAll (receive_dm w port)
unfolding receive_dm bind_port
receive_dm-ClosesAll w port = after_bind-ClosesAll w _ (bind_address-IsBound w.bind (u16 port) 0)

with_port-ClosesAll :
    (text : Name) (body : ℕ → Ended) (port : Option ℕ)
    → ((n : ℕ) → ClosesAll (body n))
    → ClosesAll (with_port text body port)
unfolding with_port
with_port-ClosesAll text body none all_closed = refl
with_port-ClosesAll text body (some port) all_closed = all_closed (u16 port)

run_mode-ClosesAll : (w : World) (mode : Name) (rest : List Name) → ClosesAll (run_mode w mode rest)
unfolding run_mode
run_mode-ClosesAll w mode [] = refl
run_mode-ClosesAll w mode (port ∷ []) = elim (Bool-cases (same_text mode receive_text)) [
  | inl same ↦
      rw same (with_port-ClosesAll port (receive_dm w) (parse_port port) (receive_dm-ClosesAll w))
  | inr other ↦ rw other refl
]
run_mode-ClosesAll w mode (port ∷ ip ∷ []) = refl
run_mode-ClosesAll w mode (port ∷ ip ∷ message ∷ []) =
    elim (Bool-cases (same_text mode send_text)) [
      | inl same ↦ rw same (
          with_port-ClosesAll port (λ n. send_dm w n ip message) (parse_port port)
            (λ n. send_dm-ClosesAll w n ip message))
      | inr other ↦ rw other refl
    ]
run_mode-ClosesAll w mode (port ∷ ip ∷ message ∷ other ∷ more) = refl

-- Whatever its arguments are and whatever the system calls return, the program closes every socket that
-- it opens, on every path out of `main`.
pub main-ClosesAll : (w : World) (arguments : List Name) → ClosesAll (main w arguments)
unfolding main
main-ClosesAll w [] = refl
main-ClosesAll w (program ∷ []) = refl
main-ClosesAll w (program ∷ mode ∷ rest) = run_mode-ClosesAll w mode rest
