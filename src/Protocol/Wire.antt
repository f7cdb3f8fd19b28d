-- ===== src/Protocol/Wire.antt =====
-- The DATA packet as docs/protocol.md lays it out, byte by byte, with one event frame.
use low_latency_event_engine.Base.{
  ℕ, ◌+◌, ◌-◌, ◌*◌, ◌/◌, ◌%◌, ◌^◌, ◌≤◌, ◌<◌, ◌≡◌, ◌≢◌, List, [], ◌∷◌, ◌++◌, arith, length,
  replicate, All, length-append, length-replicate,
}
use low_latency_event_engine.Protocol.Types.{DecodedDataView}

-- Little-endian digits.
abbrev pub bytes_u16 : ℕ → List ℕ
bytes_u16 v = v % 2 ^ 8 ∷ v / 2 ^ 8 % 2 ^ 8 ∷ []

abbrev pub bytes_u32 : ℕ → List ℕ
bytes_u32 v = v % 2 ^ 8 ∷ v / 2 ^ 8 % 2 ^ 8 ∷ v / 2 ^ 16 % 2 ^ 8 ∷ v / 2 ^ 24 % 2 ^ 8 ∷ []

abbrev pub bytes_u64 : ℕ → List ℕ
bytes_u64 v = bytes_u32 (v % 2 ^ 32) ++ bytes_u32 (v / 2 ^ 32)

-- Zero bytes that bring a frame of `6 + n` bytes up to a multiple of four.
abbrev pub padding_size : ℕ → ℕ
padding_size n = (n + 9) / 4 * 4 - (n + 6)

abbrev pub wire_size : ℕ → ℕ
wire_size n = 36 + (n + 9) / 4 * 4

-- The common header, the DATA header, the stream information and the frame's header, for a packet
-- of `size` bytes with a payload of `count`.
abbrev pub header_bytes : DecodedDataView → ℕ → ℕ → List ℕ
header_bytes view size count =
    0x4c ∷ 0x11 ∷ bytes_u16 size
    ++ bytes_u32 view.session_id
    ++ bytes_u64 view.packet_sequence
    ++ bytes_u64 view.event.sequence
    ++ bytes_u64 view.event.source_timestamp_ns
    ++ bytes_u32 view.event.stream_id
    ++ bytes_u32 0
    ++ bytes_u16 count

abbrev pub wire_header : DecodedDataView → List ℕ
wire_header view =
    header_bytes view (wire_size (length view.event.payload)) (length view.event.payload)

abbrev pub wire_packet : DecodedDataView → List ℕ
wire_packet view =
    wire_header view
    ++ (view.event.payload ++ replicate (padding_size (length view.event.payload)) 0)

-- What an event and its packet identity must satisfy to be sent.
pub record IsSendable (view : DecodedDataView) : Type 0 where
  pub session : view.session_id ≢ 0
  pub packet : view.packet_sequence ≢ 0
  pub event : view.event.sequence ≢ 0
  pub fits : length view.event.payload ≤ 1374

-- The widths of the fields, which their C++ types give.
pub record HasWidths (view : DecodedDataView) : Type 0 where
  pub session_width : view.session_id < 2 ^ 32
  pub packet_width : view.packet_sequence < 2 ^ 64
  pub event_width : view.event.sequence < 2 ^ 64
  pub time_width : view.event.source_timestamp_ns < 2 ^ 64
  pub stream_width : view.event.stream_id < 2 ^ 32

abbrev pub IsBytes : List ℕ → Type 0
IsBytes = All (λ b. b < 2 ^ 8)

pub length-wire_packet :
    (view : DecodedDataView) → length (wire_packet view) ≡ wire_size (length view.event.payload)
length-wire_packet view = omega (
  arith,
  length-append view.event.payload (replicate (padding_size (length view.event.payload)) 0),
  length-replicate {A = ℕ} (padding_size (length view.event.payload)) 0,
)
