-- ===== src/Ring/Setup.antt =====
-- Setup and validation of src/shm/spsc_ring.cpp: sizes, `initialize` and `attach`.
use low_latency_event_engine.Base.{
  ℕ, zero, suc, ◌+◌, ◌/◌, ◌%◌, List, [], ◌∷◌, Bool, true, false, not, ◌&&◌, ◌||◌, ◌==◌, ◌!=◌, ltb,
  if◌then◌else◌, bit_and, all, replicate, u32, u32_max, u64_max, add64, sub64, mul64, sub32,
  Expected, value, unexpected,
}
use low_latency_event_engine.Alignment.{align_up}
use low_latency_event_engine.Ring.Layout.{
  RingState, state_value, RingPreamble, RingCursor, RingSlotHeader, Slot, Memory, put_slot,
  ring_magic, ring_layout_version, ring_header_bytes, ring_slot_metadata_bytes,
  ring_cache_line_bytes, ring_memory_alignment,
}

-- `RingConfig`.
pub record RingConfig : Type 0 where
  pub slot_count : ℕ
  pub slot_payload_capacity : ℕ

-- `RingError`.
pub data RingError : Type 0 where
  invalid_config size_overflow invalid_memory_error invalid_layout_error not_ready : RingError

-- The handle `SpscRing`. `is_attached` is `header_ != nullptr`, and `slots_` points behind the header.
pub record SpscRing : Type 0 where
  pub is_attached : Bool
  pub slot_count : ℕ
  pub slot_stride : ℕ
  pub slot_payload_capacity : ℕ
  pub cached_read_position : ℕ
  pub cached_write_position : ℕ
  pub acquired_position : ℕ
  pub acquired : Bool
  pub initializer : Bool

-- The private constructor `SpscRing(header, slots, initializer)`.
unfoldable pub new_handle : RingPreamble → Bool → SpscRing
new_handle preamble initializer = record {
  is_attached = true;
  slot_count = preamble.slot_count;
  slot_stride = preamble.slot_stride;
  slot_payload_capacity = preamble.slot_payload_capacity;
  cached_read_position = 0;
  cached_write_position = 0;
  acquired_position = 0;
  acquired = false;
  initializer = initializer;
}

-- What the move constructor leaves behind.
abbrev pub moved_from : SpscRing
moved_from = record {
  is_attached = false;
  slot_count = 0;
  slot_stride = 0;
  slot_payload_capacity = 0;
  cached_read_position = 0;
  cached_write_position = 0;
  acquired_position = 0;
  acquired = false;
  initializer = false;
}

-- `SpscRing(SpscRing&& other)`: the new handle, and `other` behind it.
unfoldable pub move_handle : SpscRing → SpscRing × SpscRing
move_handle other = (other, moved_from)

unfoldable pub slot_stride_of : ℕ → ℕ
slot_stride_of capacity = align_up (add64 ring_slot_metadata_bytes capacity) ring_cache_line_bytes

-- `SpscRing::required_bytes`.
unfoldable pub required_bytes : RingConfig → Expected ℕ RingError
required_bytes config =
    let count = config.slot_count in
    let stride = slot_stride_of config.slot_payload_capacity in
    if ltb count 2 || (bit_and count (sub32 count 1) != 0)
    then unexpected RingError.invalid_config
    else if ltb u32_max stride
    then unexpected RingError.size_overflow
    else if ltb (sub64 u64_max ring_header_bytes / stride) count
    then unexpected RingError.size_overflow
    else value (add64 ring_header_bytes (mul64 stride count))

unfoldable pub invalid_memory : Memory → Bool
invalid_memory memory =
    memory.address == 0
    || ltb memory.size ring_header_bytes
    || memory.address % ring_memory_alignment != 0

abbrev same_bytes : List ℕ → List ℕ → Bool
same_bytes [] [] = true
same_bytes [] (y ∷ ys) = false
same_bytes (x ∷ xs) [] = false
same_bytes (x ∷ xs) (y ∷ ys) = x == y && same_bytes xs ys

unfoldable pub invalid_layout : RingPreamble → Bool
invalid_layout preamble =
    not (same_bytes preamble.magic ring_magic)
    || preamble.layout_version != ring_layout_version
    || preamble.header_bytes != ring_header_bytes
    || preamble.instance_id == 0
    || preamble.reserved != 0

unfoldable pub validate_state : ℕ → Expected (Unit {0}) RingError
validate_state state =
    if state == state_value RingState.uninitialized || state == state_value RingState.initializing
    then unexpected RingError.not_ready
    else if state != state_value RingState.ready && state != state_value RingState.closed
    then unexpected RingError.invalid_layout_error
    else value tt

-- `fill_preamble`.
unfoldable pub fill_preamble : ℕ → RingConfig → ℕ → RingPreamble
fill_preamble size config instance_id = record {
  magic = ring_magic;
  layout_version = ring_layout_version;
  header_bytes = ring_header_bytes;
  segment_bytes = size;
  slot_count = config.slot_count;
  slot_stride = u32 (sub64 size ring_header_bytes / config.slot_count);
  slot_payload_capacity = config.slot_payload_capacity;
  reserved = 0;
  instance_id = instance_id;
  state = state_value RingState.initializing;
  reserved_bytes = replicate 20 0;
}

-- A cursor at position zero, as construction and the relaxed store leave it.
abbrev pub new_cursor : RingCursor
new_cursor = record { position = 0; reserved_bytes = replicate 56 0 }

abbrev pub new_slot_header : RingSlotHeader
new_slot_header = record {
  event_sequence = 0;
  source_timestamp_ns = 0;
  stream_id = 0;
  payload_length = 0;
  reserved0 = 0;
  reserved1 = 0;
}

-- The loop that constructs the slot headers, with `left` rounds to go.
unfoldable pub construct_slots : ℕ → ℕ → ℕ → (ℕ → Slot) → ℕ → Slot
construct_slots zero index stride slots = slots
construct_slots (suc left) index stride slots = construct_slots left (index + 1) stride (
    put_slot slots (mul64 index stride)
      (record { header = new_slot_header; bytes = (slots (mul64 index stride)).bytes }))

-- `SpscRing::initialize`: its result, and the memory as it leaves it.
unfoldable pub initialize : Memory → RingConfig → ℕ → Expected SpscRing RingError × Memory
initialize memory config instance_id =
    if instance_id == 0
    then (unexpected RingError.invalid_config, memory)
    else elim (required_bytes config) [
      | unexpected e ↦ (unexpected e, memory)
      | value size ↦
          if invalid_memory memory || memory.size != size
          then (unexpected RingError.invalid_memory_error, memory)
          else let preamble = fill_preamble size config instance_id in
            let ready = record preamble { state = state_value RingState.ready } in
            (
              value (new_handle ready true),
              record memory {
                header = record { preamble = ready; producer = new_cursor; consumer = new_cursor };
                slots = construct_slots config.slot_count 0 preamble.slot_stride memory.slots;
              },
            )
    ]

abbrev zero_byte : ℕ → Bool
zero_byte b = b == 0

-- The checks of `attach` behind those of the memory and the state.
unfoldable pub attach_layout : Memory → Expected SpscRing RingError
attach_layout memory =
    let header = memory.header in
    let preamble = header.preamble in
    if invalid_layout preamble
    then unexpected RingError.invalid_layout_error
    else if not (all zero_byte preamble.reserved_bytes)
        || not (all zero_byte header.producer.reserved_bytes)
        || not (all zero_byte header.consumer.reserved_bytes)
    then unexpected RingError.invalid_layout_error
    else elim (required_bytes (record {
      slot_count = preamble.slot_count;
      slot_payload_capacity = preamble.slot_payload_capacity;
    })) [
      | unexpected e ↦ unexpected RingError.invalid_layout_error
      | value size ↦
          let stride = sub64 size ring_header_bytes / preamble.slot_count in
          if preamble.slot_stride != stride || preamble.segment_bytes != size
          then unexpected RingError.invalid_layout_error
          else if memory.size != size
          then unexpected RingError.invalid_memory_error
          else value (new_handle preamble false)
    ]

-- `SpscRing::attach`.
unfoldable pub attach : Memory → Expected SpscRing RingError
attach memory =
    if invalid_memory memory
    then unexpected RingError.invalid_memory_error
    else elim (validate_state memory.header.preamble.state) [
      | unexpected e ↦ unexpected e
      | value _ ↦ attach_layout memory
    ]
