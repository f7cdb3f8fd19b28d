-- ===== src/Ring/Ops.antt =====
-- The per-event operations of include/shm/spsc_ring.hpp, and `close_publication`.
use low_latency_event_engine.Base.{
  ℕ, Bool, true, false, not, ◌||◌, ◌==◌, ◌!=◌, ltb, leb, if◌then◌else◌, bit_and, length, take,
  copy_at, u32, u64_max, add64, sub64, mul64, sub32, Expected, value, unexpected,
}
use low_latency_event_engine.Event.{EventView, PublishResult}
use low_latency_event_engine.Ring.Layout.{
  RingState, state_value, RingSlotHeader, Slot, Memory, put_slot,
}
use low_latency_event_engine.Ring.Setup.{SpscRing}

-- `AcquireError`.
pub data AcquireError : Type 0 where
  empty closed already_acquired invalid_slot_error : AcquireError

-- `detail::fill_slot_header`; the reserved words stay as they are.
unfoldable pub fill_slot_header : RingSlotHeader → EventView → RingSlotHeader
fill_slot_header header event = record header {
  event_sequence = event.sequence;
  source_timestamp_ns = event.source_timestamp_ns;
  stream_id = event.stream_id;
  payload_length = u32 (length event.payload);
}

-- `detail::invalid_slot`.
unfoldable pub invalid_slot : RingSlotHeader → ℕ → Bool
invalid_slot slot payload_capacity =
    ltb payload_capacity slot.payload_length || slot.reserved0 != 0 || slot.reserved1 != 0

-- The offset of the slot for a position: `slot_stride_ * (position & (slot_count_ - 1))`.
unfoldable pub slot_offset : SpscRing → ℕ → ℕ
slot_offset ring position = mul64 ring.slot_stride (bit_and position (sub32 ring.slot_count 1))

-- The slot with an event written into it: metadata, then the payload behind the metadata.
unfoldable pub fill_slot : Slot → EventView → Slot
fill_slot slot event = record {
  header = fill_slot_header slot.header event;
  bytes = copy_at slot.bytes 0 event.payload;
}

abbrev pub Published : Type 0
Published = PublishResult × SpscRing × Memory

-- The last part of `try_publish`: write the slot, then advance the write cursor.
unfoldable pub publish_slot : SpscRing → Memory → EventView → Published
publish_slot ring memory event =
    let header = memory.header in
    let write_pos = header.producer.position in
    let offset = slot_offset ring write_pos in
    (
      PublishResult.ok,
      ring,
      record memory {
        header = record header {
          producer = record header.producer { position = add64 write_pos 1 };
        };
        slots = put_slot memory.slots offset (fill_slot (memory.slots offset) event);
      },
    )

-- The branch of `try_publish` that refreshes the cached read cursor.
unfoldable pub publish_refreshed : SpscRing → Memory → EventView → Published
publish_refreshed ring memory event =
    let write_pos = memory.header.producer.position in
    let read_pos = memory.header.consumer.position in
    let refreshed = record ring { cached_read_position = read_pos } in
    if ltb write_pos read_pos || ltb ring.slot_count (sub64 write_pos read_pos)
    then (PublishResult.closed, refreshed, memory)
    else if sub64 write_pos read_pos == ring.slot_count
    then (PublishResult.full, refreshed, memory)
    else publish_slot refreshed memory event

-- `SpscRing::try_publish`: its result, and the handle and the memory as it leaves them.
unfoldable pub try_publish : SpscRing → Memory → EventView → Published
try_publish ring memory event =
    let write_pos = memory.header.producer.position in
    if not ring.is_attached
    then (PublishResult.closed, ring, memory)
    else if memory.header.preamble.state != state_value RingState.ready
    then (PublishResult.closed, ring, memory)
    else if ltb ring.slot_payload_capacity (length event.payload)
    then (PublishResult.payload_too_large, ring, memory)
    else if write_pos == u64_max
    then (PublishResult.closed, ring, memory)
    else if leb ring.slot_count (sub64 write_pos ring.cached_read_position)
    then publish_refreshed ring memory event
    else publish_slot ring memory event

-- The event that a slot shows: the payload span covers `payload_length` bytes of its storage.
unfoldable pub slot_event : Slot → EventView
slot_event slot = record {
  stream_id = slot.header.stream_id;
  sequence = slot.header.event_sequence;
  source_timestamp_ns = slot.header.source_timestamp_ns;
  payload = take slot.header.payload_length slot.bytes;
}

abbrev pub Acquired : Type 0
Acquired = Expected EventView AcquireError × SpscRing

-- The part of `try_acquire` that reads the slot, once the cached write cursor is settled.
unfoldable pub acquire_slot : SpscRing → Memory → Acquired
acquire_slot ring memory =
    let read_pos = memory.header.consumer.position in
    let slot = memory.slots (slot_offset ring read_pos) in
    if ltb ring.cached_write_position read_pos
      || ltb ring.slot_count (sub64 ring.cached_write_position read_pos)
    then (unexpected AcquireError.invalid_slot_error, ring)
    else if invalid_slot slot.header ring.slot_payload_capacity
    then (unexpected AcquireError.invalid_slot_error, ring)
    else (value (slot_event slot), record ring { acquired_position = read_pos; acquired = true })

-- The branch of `try_acquire` that refreshes the cached write cursor.
unfoldable pub acquire_refreshed : SpscRing → Memory → Acquired
acquire_refreshed ring memory =
    let read_pos = memory.header.consumer.position in
    let write_pos = memory.header.producer.position in
    let refreshed = record ring { cached_write_position = write_pos } in
    if read_pos == write_pos
    then (
      unexpected (
          if memory.header.preamble.state == state_value RingState.closed
          then AcquireError.closed
          else AcquireError.empty),
      refreshed,
    )
    else acquire_slot refreshed memory

-- `SpscRing::try_acquire`: its result, and the handle as it leaves it. It writes no shared memory.
unfoldable pub try_acquire : SpscRing → Memory → Acquired
try_acquire ring memory =
    if not ring.is_attached
    then (unexpected AcquireError.closed, ring)
    else if ring.acquired
    then (unexpected AcquireError.already_acquired, ring)
    else if leb ring.cached_write_position memory.header.consumer.position
    then acquire_refreshed ring memory
    else acquire_slot ring memory

-- `SpscRing::release`.
unfoldable pub release : SpscRing → Memory → Bool × SpscRing × Memory
release ring memory =
    let header = memory.header in
    if not ring.acquired then (false, ring, memory) else (
      true,
      record ring { acquired = false; acquired_position = 0 },
      record memory {
        header = record header {
          consumer = record header.consumer { position = add64 ring.acquired_position 1 };
        };
      },
    )

-- `SpscRing::close_publication`.
unfoldable pub close_publication : SpscRing → Memory → Bool × Memory
close_publication ring memory =
    let header = memory.header in
    if not ring.initializer then (false, memory) else (
      true,
      record memory {
        header = record header {
          preamble = record header.preamble { state = state_value RingState.closed };
        };
      },
    )
