-- ===== src/Sender/Startup/Fresh.antt =====
-- The sender that a successful start of src/sender/sender.cpp gives.
use low_latency_event_engine.Base.{
  ℕ, ◌≤◌, ◌≡◌, ◌≢◌, inl, inr, refl, arith, true, false, not, Bool-cases, is_minus_one, is_empty,
  List, [], ◌∷◌, Option, none, some, Expected, value, unexpected,
}
use low_latency_event_engine.Config.{Endpoint, SenderConfig, InitError, is_best_effort}
use low_latency_event_engine.Event.{DeliveryMode}
use low_latency_event_engine.Os.{Name, Call}
use low_latency_event_engine.Ring.Layout.{Memory}
use low_latency_event_engine.Ring.Setup.{RingError, SpscRing, move_handle, attach}
use low_latency_event_engine.Segment.{Segment, Made}
use low_latency_event_engine.Segment.Lifetime.{attach_shm}
use low_latency_event_engine.Startup.{Platform, Started, behind, draw_id, bytes}
use low_latency_event_engine.Startup.Identity.{draw_id-nonzero}
use low_latency_event_engine.Stats.{no_stats}
use low_latency_event_engine.Transport.{SockaddrIn, UdpError}
use low_latency_event_engine.Transport.Sockets.{UdpSender, c_str, ipv4, open_sender}
use low_latency_event_engine.Transport.Ownership.{ipv4_lem}
use low_latency_event_engine.Sender.{Sender}
use low_latency_event_engine.Sender.Startup.{
  SenderReplies, is_config_invalid, parse_destinations, new_sender, request_stop, move_engine, give,
  with_session, with_socket, with_ring, with_segment, with_destinations, initialize,
}

-- A destination is the address of its endpoint, as `inet_pton` reads it.
abbrev pub IsResolved : (Name → Option ℕ) → Endpoint → SockaddrIn → Type 0
IsResolved inet_pton e d =
    (e.port ≢ 0)
    × (inet_pton (c_str e.address) ≡ some d.address)
    × (d.port ≡ e.port)
    × (d.is_inet ≡ true)

-- Destinations and endpoints, one by one.
abbrev pub AreResolved : (Name → Option ℕ) → List Endpoint → List SockaddrIn → Type 0
AreResolved inet_pton [] [] = Unit {0}
AreResolved inet_pton [] (d ∷ ds) = ⊥
AreResolved inet_pton (e ∷ es) [] = ⊥
AreResolved inet_pton (e ∷ es) (d ∷ ds) = IsResolved inet_pton e d × AreResolved inet_pton es ds

-- A configuration that the step supports.
pub record IsSupported (config : SenderConfig) : Type 0 where
  pub named : config.ingress_shm_name ≢ []
  pub addressed : config.receivers ≢ []
  pub at_least : 44 ≤ config.max_datagram_bytes
  pub at_most : config.max_datagram_bytes ≤ 1416
  pub mode : config.delivery_mode ≡ DeliveryMode.best_effort
  pub unpinned : is_minus_one config.cpu ≡ true

abbrev ResolvedResult :
    (Name → Option ℕ) → List Endpoint → Expected (List SockaddrIn) InitError → Type 0
ResolvedResult inet_pton es (unexpected e) = Unit {0}
ResolvedResult inet_pton es (value ds) = AreResolved inet_pton es ds

is_empty-false : {A : Type 0} (xs : List A) → is_empty xs ≡ false → xs ≢ []
is_empty-false [] e = absurd (grind arith)
is_empty-false (x ∷ xs) e = grind arith

is_best_effort-false :
    (m : DeliveryMode) → not (is_best_effort m) ≡ false → m ≡ DeliveryMode.best_effort
is_best_effort-false DeliveryMode.best_effort e = refl
is_best_effort-false DeliveryMode.reliable_ordered e = absurd (grind arith)

supported : (config : SenderConfig) → is_config_invalid config ≡ false → IsSupported config
unfolding is_config_invalid
supported config valid = record {
  named = is_empty-false config.ingress_shm_name (grind arith);
  addressed = is_empty-false config.receivers (grind arith);
  at_least = grind (arith, valid);
  at_most = grind (arith, valid);
  mode = is_best_effort-false config.delivery_mode (grind arith);
  unpinned = grind arith;
}

ipv4-IsResolved :
    (inet_pton : Name → Option ℕ) (e : Endpoint) (d : SockaddrIn)
    → ipv4 inet_pton e.address e.port ≡ value d
    → IsResolved inet_pton e d
ipv4-IsResolved inet_pton e d given = elim (ipv4_lem inet_pton e.address e.port) [
  | inl (z, refused) ↦ absurd (grind arith)
  | inr (inl (nonzero, unread, refused)) ↦ absurd (grind arith)
  | inr (inr (nonzero, (number, read, made))) ↦ grind arith
]

parse_destinations-AreResolved :
    (inet_pton : Name → Option ℕ) (es : List Endpoint)
    → ResolvedResult inet_pton es (parse_destinations inet_pton es)
unfolding parse_destinations
parse_destinations-AreResolved inet_pton [] = tt
parse_destinations-AreResolved inet_pton (e ∷ es) =
    go (ipv4 inet_pton e.address e.port) (ipv4-IsResolved inet_pton e)
      (parse_destinations inet_pton es) (parse_destinations-AreResolved inet_pton es)
  where
    go :
        (first : Expected SockaddrIn UdpError)
        → ((d : SockaddrIn) → first ≡ value d → IsResolved inet_pton e d)
        → (rest : Expected (List SockaddrIn) InitError) → ResolvedResult inet_pton es rest
        → ResolvedResult inet_pton (e ∷ es) (elim first [
          | unexpected _ ↦ unexpected InitError.address_resolution
          | value d ↦ elim rest [ unexpected error ↦ unexpected error | value ds ↦ value (d ∷ ds) ]
        ])
    go (unexpected _) read rest resolved = tt
    go (value d) read (unexpected error) resolved = tt
    go (value d) read (value ds) resolved = (read d refl, resolved)

-- A sender as a start for `config` on the shared memory `contents` gives it.
pub record IsFresh (p : Platform) (contents : Memory) (config : SenderConfig) (s : Sender)
    : Type 0 where
  pub configured : s.config ≡ config
  pub supports : IsSupported config
  pub resolved : AreResolved p.inet_pton config.receivers s.destinations
  pub attached : attach (bytes s.segment contents) ≡ value s.ingress
  pub session : s.session_id ≢ 0
  pub first : s.packet_sequence ≡ 1
  pub unstopped : s.stop_requested ≡ false
  pub uncounted : s.stats ≡ no_stats

-- A start that succeeds gives a sender of which `P` holds.
abbrev pub Succeeds : (Sender → Type 0) → Started (Expected Sender InitError) → Type 0
Succeeds P none = Unit {0}
Succeeds P (some (unexpected e, calls)) = Unit {0}
Succeeds P (some (value s, calls)) = P s

module _ (p : Platform) (r : SenderReplies) (contents : Memory) (config : SenderConfig)
    (supports : IsSupported config) where
  abbrev Fresh : Started (Expected Sender InitError) → Type 0
  Fresh started = Succeeds (IsFresh p contents config) started

  behind-Fresh :
      (calls : List Call) (started : Started (Expected Sender InitError))
      → Fresh started
      → Fresh (behind calls started)
  unfolding behind
  behind-Fresh calls none f = tt
  behind-Fresh calls (some (unexpected e, more)) f = tt
  behind-Fresh calls (some (value s, more)) f = f

  module _ (ds : List SockaddrIn) (resolved : AreResolved p.inet_pton config.receivers ds) where
    with_session-Fresh :
        (segment : Segment) (ingress : SpscRing) (udp : UdpSender) (id : Option (Option ℕ))
        → attach (bytes segment contents) ≡ value ingress
        → ((n : ℕ) → id ≡ some (some n) → n ≢ 0)
        → Fresh (with_session r config ds segment ingress udp id)
    unfolding with_session new_sender give move_engine request_stop move_handle
    with_session-Fresh segment ingress udp none attached nonzero = tt
    with_session-Fresh segment ingress udp (some none) attached nonzero = tt
    with_session-Fresh segment ingress udp (some (some id)) attached nonzero = record {
      configured = refl;
      supports = supports;
      resolved = resolved;
      attached = attached;
      session = nonzero id refl;
      first = refl;
      unstopped = refl;
      uncounted = refl;
    }

    with_socket-Fresh :
        (segment : Segment) (ingress : SpscRing) (opened : Expected UdpSender UdpError × List Call)
        → attach (bytes segment contents) ≡ value ingress
        → Fresh (with_socket p r config ds segment ingress opened)
    unfolding with_socket
    with_socket-Fresh segment ingress (unexpected e, calls) attached = tt
    with_socket-Fresh segment ingress (value udp, calls) attached =
        let id = draw_id p.errno 4 r.draws in
        behind-Fresh calls (with_session r config ds segment ingress udp id) (
          with_session-Fresh segment ingress udp id attached
            (λ n e. draw_id-nonzero p.errno 4 r.draws n e))

    with_ring-Fresh :
        (segment : Segment) (ring : Expected SpscRing RingError)
        → attach (bytes segment contents) ≡ ring
        → Fresh (with_ring p r config ds segment ring)
    unfolding with_ring
    with_ring-Fresh segment (unexpected e) attached = tt
    with_ring-Fresh segment (value ingress) attached =
        with_socket-Fresh segment ingress (open_sender r.socket) attached

    with_segment-Fresh : (made : Made) → Fresh (with_segment p r contents config ds made)
    unfolding with_segment
    with_segment-Fresh (unexpected e, calls) = tt
    with_segment-Fresh (value segment, calls) =
        let ring = attach (bytes segment contents) in
        behind-Fresh calls (with_ring p r config ds segment ring)
          (with_ring-Fresh segment ring refl)

  with_destinations-Fresh :
      (ds : Expected (List SockaddrIn) InitError)
      → ResolvedResult p.inet_pton config.receivers ds
      → Fresh (with_destinations p r contents config ds)
  unfolding with_destinations
  with_destinations-Fresh (unexpected e) resolved = tt
  with_destinations-Fresh (value ds) resolved =
      with_segment-Fresh ds resolved (attach_shm p.segment_errno r.segment config.ingress_shm_name)

-- A start that succeeds gives a sender of a supported configuration with one destination for each
-- endpoint, in order, as `inet_pton` reads it, whose ring is attached to the mapped memory, whose
-- session is not zero, and which has sent nothing and goes on with packet 1.
pub initialize-IsFresh :
    (p : Platform) (r : SenderReplies) (contents : Memory) (config : SenderConfig)
    → Succeeds (IsFresh p contents config) (initialize p r contents config)
unfolding initialize
initialize-IsFresh p r contents config = elim (Bool-cases (is_config_invalid config)) [
  | inl bad ↦ rw bad tt
  | inr good ↦ rw good (
      with_destinations-Fresh p r contents config (supported config good)
        (parse_destinations p.inet_pton config.receivers)
        (parse_destinations-AreResolved p.inet_pton config.receivers))
]
