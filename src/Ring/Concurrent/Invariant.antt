-- ===== src/Ring/Concurrent/Invariant.antt =====
-- What holds at every point of an interleaving of the two threads of include/shm/spsc_ring.hpp.
use low_latency_event_engine.Base.{
  ℕ, ◌+◌, ◌^◌, ◌≤◌, ◌<◌, ◌≡◌, ◌≢◌, ◌⊎◌, Bool, true, false, if◌then◌else◌, ◌||◌, ap, arith, List, [],
  ◌∷◌, ◌++◌, length,
}
use low_latency_event_engine.Event.{EventView}
use low_latency_event_engine.Ring.Layout.{RingState, state_value, RingSlotHeader, Memory}
use low_latency_event_engine.Ring.Setup.{SpscRing}
use low_latency_event_engine.Ring.Ops.{AcquireError, slot_event}
use low_latency_event_engine.Ring.Queue.{drop_first}
use low_latency_event_engine.Ring.Linked.{
  read_position, write_position, slot_at, IsLinked, event_at, contents,
}
use low_latency_event_engine.Ring.Concurrent.{
  ProducerPc, producer_idle, checks_state, checks_room, loads_read_cursor, fills_header,
  fills_payload, stores_write_cursor, ConsumerPc, consumer_idle, loads_own_cursor, loads_state,
  loads_write_cursor, reads_slot, Threads, History,
}

-- The metadata of an event stand in a slot header.
pub record Describes (e : EventView) (h : RingSlotHeader) : Type 0 where
  pub sequence : h.event_sequence ≡ e.sequence
  pub time : h.source_timestamp_ns ≡ e.source_timestamp_ns
  pub stream : h.stream_id ≡ e.stream_id
  pub size : h.payload_length ≡ length e.payload

-- The producer is about to use the slot of its write position.
pub record IsWriting (e : EventView) (w : ℕ) (p : SpscRing) (m : Memory) : Type 0 where
  pub room : length e.payload ≤ p.slot_payload_capacity
  pub position : w ≡ write_position m
  pub more : write_position m + 1 < 2 ^ 64

-- It has found the slot free: the consumer has released it.
pub record IsFree (e : EventView) (w : ℕ) (p : SpscRing) (m : Memory) : Type 0 where
  pub writing : IsWriting e w p m
  pub free : write_position m < read_position m + p.slot_count

-- What the producer has established where it stands.
abbrev pub ProducerAt : ProducerPc → SpscRing → Memory → Type 0
ProducerAt producer_idle p m = Unit
ProducerAt (checks_state e) p m = Unit
ProducerAt (checks_room e) p m = length e.payload ≤ p.slot_payload_capacity
ProducerAt (loads_read_cursor e w) p m = IsWriting e w p m
ProducerAt (fills_header e w) p m = IsFree e w p m
ProducerAt (fills_payload e w) p m =
    IsFree e w p m × Describes e (slot_at p m (write_position m)).header
ProducerAt (stores_write_cursor e w) p m =
    IsFree e w p m
    × (slot_event (slot_at p m (write_position m)) ≡ e)
    × ((slot_at p m (write_position m)).header.payload_length ≤ p.slot_payload_capacity)

-- The consumer looks for the event of its read position.
pub record IsReading (r : ℕ) (c : SpscRing) (m : Memory) : Type 0 where
  pub position : r ≡ read_position m
  pub idle : c.acquired ≡ false

-- What the consumer has established where it stands. A closed state, once seen, stays.
abbrev pub ConsumerAt : ConsumerPc → SpscRing → Memory → Type 0
ConsumerAt consumer_idle c m = Unit
ConsumerAt loads_own_cursor c m = Unit
ConsumerAt (loads_state r) c m = IsReading r c m
ConsumerAt (loads_write_cursor r state) c m =
    IsReading r c m
    × ((state ≢ state_value RingState.closed)
        ⊎ (m.header.preamble.state ≡ state_value RingState.closed))
ConsumerAt (reads_slot r) c m = IsReading r c m × (read_position m < c.cached_write_position)

-- The producer has not passed the test of the state.
abbrev pub is_outside : ProducerPc → Bool
is_outside producer_idle = true
is_outside (checks_state e) = true
is_outside other = false

-- Events that are visible and not given out yet.
abbrev pub pending : SpscRing → SpscRing → Memory → List EventView
pending p c m = if c.acquired then drop_first (contents p m) else contents p m

abbrev pub any {ℓ} : {A : Type ℓ} → (A → Bool) → List A → Bool
any f [] = false
any f (x ∷ xs) = f x || any f xs

abbrev pub is_closed_error : AcquireError → Bool
is_closed_error AcquireError.closed = true
is_closed_error other = false

abbrev pub is_invalid_slot : AcquireError → Bool
is_invalid_slot AcquireError.invalid_slot_error = true
is_invalid_slot other = false

pub any-snoc {ℓ} :
    {A : Type ℓ} (f : A → Bool) (xs : List A) (x : A)
    → f x ≡ false
    → any f (xs ++ (x ∷ [])) ≡ any f xs
any-snoc f [] x e = ground (arith, e)
any-snoc f (y ∷ xs) x e = ap (λ b. f y || b) (any-snoc f xs x e)

-- What the consumer holds is the event that it was given last, unchanged in its slot.
abbrev pub HoldsGiven : SpscRing → SpscRing → Memory → List EventView → Type 0
HoldsGiven p c m given =
    (c.acquired ≡ false)
    ⊎ ((before : List EventView) × (given ≡ before ++ (event_at p m (read_position m) ∷ [])))

pub record IsSound (s : Threads) (h : History) : Type 0 where
  pub linked : IsLinked s.producer s.consumer s.memory
  pub producer_at : ProducerAt s.producer_pc s.producer s.memory
  pub consumer_at : ConsumerAt s.consumer_pc s.consumer s.memory
  pub outside :
      (is_outside s.producer_pc ≡ true)
      ⊎ (s.memory.header.preamble.state ≡ state_value RingState.ready)
  pub fifo : h.given ++ pending s.producer s.consumer s.memory ≡ h.accepted
  pub held : HoldsGiven s.producer s.consumer s.memory h.given
  pub drained :
      (any is_closed_error h.refusals ≡ false)
      ⊎ ((s.memory.header.preamble.state ≡ state_value RingState.closed)
          × (read_position s.memory ≡ write_position s.memory))
  pub no_invalid : any is_invalid_slot h.refusals ≡ false
