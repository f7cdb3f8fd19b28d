-- ===== src/Ring/Layout.antt =====
-- include/shm/ring_layout.hpp: the objects that live inside the mapping.
use low_latency_event_engine.Base.{ℕ, List, [], ◌∷◌, ◌==◌, if◌then◌else◌}

abbrev pub ring_cache_line_bytes : ℕ
ring_cache_line_bytes = 64

abbrev pub ring_memory_alignment : ℕ
ring_memory_alignment = 128

abbrev pub ring_layout_version : ℕ
ring_layout_version = 1

abbrev pub ring_header_bytes : ℕ
ring_header_bytes = 192

abbrev pub ring_slot_metadata_bytes : ℕ
ring_slot_metadata_bytes = 32

-- "LLE1".
abbrev pub ring_magic : List ℕ
ring_magic = b'L' ∷ b'L' ∷ b'E' ∷ b'1' ∷ []

-- `RingState`.
pub data RingState : Type 0 where
  uninitialized initializing ready closed : RingState

-- The `uint32_t` that stands for a state in memory.
abbrev pub state_value : RingState → ℕ
state_value RingState.uninitialized = 0
state_value RingState.initializing = 1
state_value RingState.ready = 2
state_value RingState.closed = 3

-- `RingPreamble`.
pub record RingPreamble : Type 0 where
  pub magic : List ℕ
  pub layout_version : ℕ
  pub header_bytes : ℕ
  pub segment_bytes : ℕ
  pub slot_count : ℕ
  pub slot_stride : ℕ
  pub slot_payload_capacity : ℕ
  pub reserved : ℕ
  pub instance_id : ℕ
  pub state : ℕ
  pub reserved_bytes : List ℕ

-- `RingCursor`.
pub record RingCursor : Type 0 where
  pub position : ℕ
  pub reserved_bytes : List ℕ

-- `RingHeader`.
pub record RingHeader : Type 0 where
  pub preamble : RingPreamble
  pub producer : RingCursor
  pub consumer : RingCursor

-- `RingSlotHeader`.
pub record RingSlotHeader : Type 0 where
  pub event_sequence : ℕ
  pub source_timestamp_ns : ℕ
  pub stream_id : ℕ
  pub payload_length : ℕ
  pub reserved0 : ℕ
  pub reserved1 : ℕ

-- A slot: its header, and the payload storage that follows up to the next slot.
pub record Slot : Type 0 where
  pub header : RingSlotHeader
  pub bytes : List ℕ

-- The memory of a ring, as `std::span<std::byte>` gives it: where it starts, how many bytes it has,
-- the header at its start, and the slot at each byte offset from the end of the header.
pub record Memory : Type 0 where
  pub address : ℕ
  pub size : ℕ
  pub header : RingHeader
  pub slots : ℕ → Slot

abbrev pub put_slot : (ℕ → Slot) → ℕ → Slot → ℕ → Slot
put_slot slots offset s at = if offset == at then s else slots at
