-- ===== src/Ring/Concurrent.antt =====
-- include/shm/spsc_ring.hpp at the granularity of its shared accesses: a producer and a consumer
-- thread that interleave inside their calls. Each step below makes at most one access to a cursor, to
-- the state or to a part of a slot, but for the consumer's last step, which reads a whole slot. Local
-- variables stand in the program counter.
pub mod Invariant
pub mod Frames
pub mod Producing
pub mod Consuming
pub mod Schedules
pub mod Safety
pub mod WaitFree
mod Tests
use low_latency_event_engine.Base.{
  ℕ, Bool, true, false, not, ◌||◌, ◌==◌, ◌!=◌, ltb, leb, if◌then◌else◌, List, [], ◌∷◌, ◌++◌, length,
  copy_at, add64, sub64, u64_max, Expected, value, unexpected,
}
use low_latency_event_engine.Event.{EventView, PublishResult}
use low_latency_event_engine.Ring.Layout.{RingState, state_value, Memory, put_slot}
use low_latency_event_engine.Ring.Setup.{SpscRing}
use low_latency_event_engine.Ring.Ops.{
  AcquireError, slot_offset, fill_slot_header, invalid_slot, slot_event, release, close_publication,
}

-- Where the producer stands in `try_publish`, with its event and its `write_pos`.
pub data ProducerPc : Type 0 where
  producer_idle : ProducerPc
  checks_state : EventView → ProducerPc
  checks_room : EventView → ProducerPc
  loads_read_cursor : EventView → ℕ → ProducerPc
  fills_header : EventView → ℕ → ProducerPc
  fills_payload : EventView → ℕ → ProducerPc
  stores_write_cursor : EventView → ℕ → ProducerPc

-- Where the consumer stands in `try_acquire`, with its `read_pos` and its `state`.
pub data ConsumerPc : Type 0 where
  consumer_idle : ConsumerPc
  loads_own_cursor : ConsumerPc
  loads_state : ℕ → ConsumerPc
  loads_write_cursor : ℕ → ℕ → ConsumerPc
  reads_slot : ℕ → ConsumerPc

-- What a step of the producer does: it goes on, or the call returns.
pub data Published : Type 0 where
  goes_on : ProducerPc → Published
  returns : PublishResult → Published

-- What a step of the consumer does.
pub data Acquired : Type 0 where
  moves_on : ConsumerPc → Acquired
  gives : Expected EventView AcquireError → Acquired

-- The two threads, their handles, and the memory that they share.
pub record Threads : Type 0 where
  pub producer : SpscRing
  pub consumer : SpscRing
  pub memory : Memory
  pub producer_pc : ProducerPc
  pub consumer_pc : ConsumerPc

-- The tests of `try_publish` on the state, just loaded, and on the size.
unfoldable pub check_ready : SpscRing → EventView → ℕ → Published
check_ready ring event state =
    if not ring.is_attached
    then returns PublishResult.closed
    else if state != state_value RingState.ready
    then returns PublishResult.closed
    else if ltb ring.slot_payload_capacity (length event.payload)
    then returns PublishResult.payload_too_large
    else goes_on (checks_room event)

-- The tests of `try_publish` on its own cursor and its view of the consumer's.
unfoldable pub check_room : SpscRing → EventView → ℕ → Published
check_room ring event write_pos =
    if write_pos == u64_max
    then returns PublishResult.closed
    else if leb ring.slot_count (sub64 write_pos ring.cached_read_position)
    then goes_on (loads_read_cursor event write_pos)
    else goes_on (fills_header event write_pos)

-- The test of `try_publish` that needs the consumer's cursor, just loaded.
unfoldable pub check_refreshed : SpscRing → EventView → ℕ → Published
check_refreshed ring event write_pos =
    if ltb write_pos ring.cached_read_position
      || ltb ring.slot_count (sub64 write_pos ring.cached_read_position)
    then returns PublishResult.closed
    else if sub64 write_pos ring.cached_read_position == ring.slot_count
    then returns PublishResult.full
    else goes_on (fills_header event write_pos)

-- One step of `try_publish`.
unfoldable pub publish_step : ProducerPc → SpscRing → Memory → Published × SpscRing × Memory
publish_step producer_idle ring memory = (goes_on producer_idle, ring, memory)
publish_step (checks_state event) ring memory =
    (check_ready ring event memory.header.preamble.state, ring, memory)
publish_step (checks_room event) ring memory =
    (check_room ring event memory.header.producer.position, ring, memory)
publish_step (loads_read_cursor event write_pos) ring memory =
    let refreshed = record ring { cached_read_position = memory.header.consumer.position } in
    (check_refreshed refreshed event write_pos, refreshed, memory)
publish_step (fills_header event write_pos) ring memory =
    let offset = slot_offset ring write_pos in
    let slot = memory.slots offset in
    (
      goes_on (fills_payload event write_pos),
      ring,
      record memory {
        slots =
            put_slot memory.slots offset
              (record slot { header = fill_slot_header slot.header event });
      },
    )
publish_step (fills_payload event write_pos) ring memory =
    let offset = slot_offset ring write_pos in
    let slot = memory.slots offset in
    (
      goes_on (stores_write_cursor event write_pos),
      ring,
      record memory {
        slots =
            put_slot memory.slots offset
              (record slot { bytes = copy_at slot.bytes 0 event.payload });
      },
    )
publish_step (stores_write_cursor event write_pos) ring memory = (
  returns PublishResult.ok,
  ring,
  record memory {
    header = record memory.header {
      producer = record memory.header.producer { position = add64 write_pos 1 };
    };
  },
)

-- The last part of `try_acquire`: the slot of `read_pos`.
unfoldable pub read_slot : ℕ → SpscRing → Memory → Acquired × SpscRing
read_slot read_pos ring memory =
    let slot = memory.slots (slot_offset ring read_pos) in
    if ltb ring.cached_write_position read_pos
      || ltb ring.slot_count (sub64 ring.cached_write_position read_pos)
    then (gives (unexpected AcquireError.invalid_slot_error), ring)
    else if invalid_slot slot.header ring.slot_payload_capacity
    then (gives (unexpected AcquireError.invalid_slot_error), ring)
    else (
      gives (value (slot_event slot)),
      record ring { acquired_position = read_pos; acquired = true },
    )

-- The tests of `try_acquire` on its own cursor and its view of the producer's.
unfoldable pub check_known : SpscRing → ℕ → Acquired
check_known ring read_pos =
    if not ring.is_attached
    then gives (unexpected AcquireError.closed)
    else if ring.acquired
    then gives (unexpected AcquireError.already_acquired)
    else if leb ring.cached_write_position read_pos
    then moves_on (loads_state read_pos)
    else moves_on (reads_slot read_pos)

-- The test of `try_acquire` on the producer's cursor, just loaded.
unfoldable pub check_any : ℕ → ℕ → ℕ → Acquired
check_any read_pos state write_pos =
    if read_pos == write_pos
    then gives (
        unexpected (
          if state == state_value RingState.closed
          then AcquireError.closed
          else AcquireError.empty))
    else moves_on (reads_slot read_pos)

-- One step of `try_acquire`, which writes no shared memory.
unfoldable pub acquire_step : ConsumerPc → SpscRing → Memory → Acquired × SpscRing
acquire_step consumer_idle ring memory = (moves_on consumer_idle, ring)
acquire_step loads_own_cursor ring memory = (check_known ring memory.header.consumer.position, ring)
acquire_step (loads_state read_pos) ring memory =
    (moves_on (loads_write_cursor read_pos memory.header.preamble.state), ring)
acquire_step (loads_write_cursor read_pos state) ring memory = (
  check_any read_pos state memory.header.producer.position,
  record ring { cached_write_position = memory.header.producer.position },
)
acquire_step (reads_slot read_pos) ring memory = read_slot read_pos ring memory

-- What the schedule may choose: a new call of a thread that is in none, or the next step of a call.
-- Closing is done by the creator, which has stopped the producer, as the header asks.
pub data Action : Type 0 where
  call_publish : EventView → Action
  produce : Action
  call_acquire : Action
  consume : Action
  call_release : Action
  call_close : SpscRing → Action

-- The ghost history: events made visible by the producer's store, events that `try_acquire` has given
-- out, and the errors that it has returned.
pub record History : Type 0 where
  pub accepted : List EventView
  pub given : List EventView
  pub refusals : List AcquireError

abbrev pub no_history : History
no_history = record { accepted = []; given = []; refusals = [] }

abbrev pub is_producer_idle : ProducerPc → Bool
is_producer_idle producer_idle = true
is_producer_idle other = false

abbrev pub is_consumer_idle : ConsumerPc → Bool
is_consumer_idle consumer_idle = true
is_consumer_idle other = false

-- The program counter and the history behind a step of the producer.
unfoldable pub produced : ProducerPc → Published → History → ProducerPc × History
produced pc (goes_on pc') h = (pc', h)
produced (stores_write_cursor event write_pos) (returns result) h =
    (producer_idle, record h { accepted = h.accepted ++ (event ∷ []) })
produced pc (returns result) h = (producer_idle, h)

-- The program counter and the history behind a step of the consumer.
unfoldable pub consumed : Acquired → History → ConsumerPc × History
consumed (moves_on pc) h = (pc, h)
consumed (gives (value event)) h = (consumer_idle, record h { given = h.given ++ (event ∷ []) })
consumed (gives (unexpected error)) h =
    (consumer_idle, record h { refusals = h.refusals ++ (error ∷ []) })

-- One action; one that its thread cannot take has no effect.
unfoldable pub step : Threads → History → Action → Threads × History
step s h (call_publish event) =
    (if is_producer_idle s.producer_pc then record s { producer_pc = checks_state event } else s, h)
step s h produce =
    let (out, ring, memory) = publish_step s.producer_pc s.producer s.memory in
    let (pc, h') = produced s.producer_pc out h in
    (record s { producer = ring; memory = memory; producer_pc = pc }, h')
step s h call_acquire =
    (if is_consumer_idle s.consumer_pc then record s { consumer_pc = loads_own_cursor } else s, h)
step s h consume =
    let (out, ring) = acquire_step s.consumer_pc s.consumer s.memory in
    let (pc, h') = consumed out h in (record s { consumer = ring; consumer_pc = pc }, h')
step s h call_release =
    let (_, ring, memory) = release s.consumer s.memory in
    (if is_consumer_idle s.consumer_pc then record s { consumer = ring; memory = memory } else s, h)
step s h (call_close owner) =
    let (_, memory) = close_publication owner s.memory in
    (if is_producer_idle s.producer_pc then record s { memory = memory } else s, h)

unfoldable pub run : Threads → History → List Action → Threads × History
run s h [] = (s, h)
run s h (a ∷ schedule) = let (s', h') = step s h a in run s' h' schedule
