-- ===== src/Transport/Ownership.antt =====
-- Who owns the sockets of src/transport.
use low_latency_event_engine.Base.{
  ℕ, ◌≡◌, ◌≢◌, ◌⊎◌, inl, inr, refl, arith, true, false, Bool-cases, List, [], ◌∷◌, ◌++◌, Option,
  none, some, Option-cases, Expected, value, unexpected,
}
use native.Mathlib.Decide.{ℕ_discrete}
use low_latency_event_engine.Os.{Name, Call}
use low_latency_event_engine.Os.Ledger.{opens, closes, as_list, Amounts, Amounts_lem}
use low_latency_event_engine.Transport.{Reply, failed, returned, UdpErrorCode, UdpError, SockaddrIn}
use low_latency_event_engine.Transport.Sockets.{
  UdpSender, open_sender, BindReplies, Bound, udp_error, c_str, ipv4, close_socket, bind_named,
  bind_socket, bind_opened, bind_address, move_receiver,
}

-- A binding either gives a receiver that owns the one socket that was opened, or closes it; when the
-- receiver and the one that it was moved from are destroyed, the socket is closed once.
abbrev pub OwnsSocket : Bound → Type 0
OwnsSocket (value u, calls) =
    let (u', rest) = move_receiver u in
    ((fd : ℕ) × (u.socket_fd ≡ some fd) × (opens calls ≡ fd ∷ []))
    × (closes calls ≡ [])
    × (closes (close_socket rest.socket_fd ++ close_socket u'.socket_fd) ≡ opens calls)
OwnsSocket (unexpected e, calls) = closes calls ≡ opens calls

bind_opened-OwnsSocket :
    (s b g : Reply) (port : ℕ)
    → OwnsSocket (bind_opened (record { socket = s; bind = b; getsockname = g; port = port }) s)
unfolding bind_opened bind_socket bind_named
bind_opened-OwnsSocket (failed e) b g port = refl
bind_opened-OwnsSocket (returned fd) (failed e) g port = refl
bind_opened-OwnsSocket (returned fd) (returned _) (failed e) port = refl
bind_opened-OwnsSocket (returned fd) (returned _) (returned _) port = ((fd, refl, refl), refl, refl)

-- Whatever `socket`, `bind` and `getsockname` return, a receiver that cannot be bound leaves no socket
-- open, and one that is bound owns the socket, which is closed exactly once when it and the object
-- that it was moved from are destroyed.
pub bind_address-OwnsSocket :
    (r : BindReplies) (address : SockaddrIn) → OwnsSocket (bind_address r address)
bind_address-OwnsSocket r address = elim (Bool-cases address.is_inet) [
  | inr other ↦ rw (refused other) refl
  | inl inet ↦ rw (goes inet) (bind_opened-OwnsSocket r.socket r.bind r.getsockname r.port)
]
  where
    refused :
        address.is_inet ≡ false
        → bind_address r address ≡ (unexpected (udp_error UdpErrorCode.invalid_address 0), [])
    refused e = unfold bind_address in ground (arith, e)

    goes : address.is_inet ≡ true → bind_address r address ≡ bind_opened r r.socket
    goes e = unfold bind_address in ground (arith, e)

pub close_socket-Amounts : (fd : Option ℕ) → Amounts (close_socket fd) [] (as_list fd) [] [] [] []
close_socket-Amounts none = Amounts_lem _
close_socket-Amounts (some fd) = Amounts_lem _

-- An opened sender holds its socket, and a failure leaves nothing.
abbrev pub IsOpened : Expected UdpSender UdpError × List Call → Type 0
IsOpened (value u, calls) = Amounts calls (as_list u.socket_fd) [] [] [] [] []
IsOpened (unexpected e, calls) = Amounts calls [] [] [] [] [] []

pub open_sender-IsOpened : (r : Reply) → IsOpened (open_sender r)
unfolding open_sender
open_sender-IsOpened (failed e) = Amounts_lem _
open_sender-IsOpened (returned fd) = Amounts_lem _

-- A bound receiver holds its socket, and a failure leaves nothing.
abbrev pub IsBound : Bound → Type 0
IsBound (value u, calls) = Amounts calls (as_list u.socket_fd) [] [] [] [] []
IsBound (unexpected e, calls) =
    (fd : Option ℕ) × Amounts calls (as_list fd) (as_list fd) [] [] [] []

bind_opened-IsBound :
    (s b g : Reply) (port : ℕ)
    → IsBound (bind_opened (record { socket = s; bind = b; getsockname = g; port = port }) s)
unfolding bind_opened bind_socket bind_named
bind_opened-IsBound (failed e) b g port = (none, Amounts_lem _)
bind_opened-IsBound (returned fd) (failed e) g port = (some fd, Amounts_lem _)
bind_opened-IsBound (returned fd) (returned _) (failed e) port = (some fd, Amounts_lem _)
bind_opened-IsBound (returned fd) (returned _) (returned _) port = Amounts_lem _

pub bind_address-IsBound :
    (r : BindReplies) (port number : ℕ)
    → IsBound (bind_address r (record { is_inet = true; port = port; address = number }))
unfolding bind_address
bind_address-IsBound r port number = bind_opened-IsBound r.socket r.bind r.getsockname r.port

-- `ipv4` has three outcomes: a zero port is refused before the text is looked at, a text that
-- `inet_pton` does not read is an invalid address, and otherwise the address has its number and port.
pub ipv4_lem :
    (inet_pton : Name → Option ℕ) (text : Name) (port : ℕ)
    → ((port ≡ 0) × (ipv4 inet_pton text port ≡ unexpected (udp_error UdpErrorCode.invalid_port 0)))
      ⊎ ((port ≢ 0)
          × (inet_pton (c_str text) ≡ none)
          × (ipv4 inet_pton text port ≡ unexpected (udp_error UdpErrorCode.invalid_address 0)))
      ⊎ ((port ≢ 0)
          × ((number : ℕ) × (inet_pton (c_str text) ≡ some number)
              × (ipv4 inet_pton text port
                  ≡ value (record { is_inet = true; port = port; address = number }))))
unfolding ipv4
ipv4_lem inet_pton text port = elim (ℕ_discrete port 0) [
  | yes zero_port ↦ inl (zero_port, ground (arith, zero_port))
  | no other ↦ elim (Option-cases (inet_pton (c_str text))) [
    | inl e ↦ inr (inl (other, e, ground (arith, e, other)))
    | inr (number, e) ↦ inr (inr (other, (number, e, ground (arith, e, other))))
  ]
]
