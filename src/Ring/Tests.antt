-- ===== src/Ring/Tests.antt =====
-- The ring at concrete configurations and calls.
use low_latency_event_engine.Base.{
  ℕ, ◌+◌, ◌-◌, ◌*◌, ◌^◌, ◌≤◌, ◌≡◌, ◌⊎◌, inl, inr, refl, arith, List, [], ◌∷◌, ◌++◌, replicate, Bool,
  true, false, none, value, unexpected, copy_at,
}
use low_latency_event_engine.Base.Bits.{IsPowerOfTwo}
use low_latency_event_engine.Alignment.{align_up}
use low_latency_event_engine.Event.{EventView}
use low_latency_event_engine.Ring.Layout.{Memory}
use low_latency_event_engine.Ring.Setup.{
  RingConfig, RingError, SpscRing, new_cursor, new_slot_header, required_bytes, slot_stride_of,
  initialize,
}
use low_latency_event_engine.Ring.Ops.{
  slot_offset, slot_event, fill_slot, fill_slot_header, invalid_slot, publish_slot,
  publish_refreshed, try_publish, acquire_slot, acquire_refreshed, try_acquire, release,
  close_publication,
}
use low_latency_event_engine.Ring.Geometry.{slot_offset-in_bounds, slot_offset-disjoint}
use low_latency_event_engine.Ring.Sizes.{
  HasWidths, IsAllowed, ring_size, stride, required_bytes_lem,
}
use low_latency_event_engine.Ring.Queue
use low_latency_event_engine.Ring.Samples.{handle, ring, ring-IsLinked}
use low_latency_event_engine.Ring.Linked.{IsLinked, contents, queue_of}
use low_latency_event_engine.Ring.Start.{IsRoom, StartsEmpty, initialize-attach}
use low_latency_event_engine.Ring.Refine.Publish.{PublishRefines, try_publish_refines}
use low_latency_event_engine.Ring.Refine.Acquire.{AcquireRefines, try_acquire_refines}
use low_latency_event_engine.Ring.Refine.Release.{
  ReleaseRefines, with_state, release_refines, close_publication_refines,
}
use low_latency_event_engine.Ring.Refine.Calls.{
  Op, publish, acquire, release_held, close, System, SystemIsLinked, no_history, call, observe,
  call_all,
}
use low_latency_event_engine.Ring.Refine.Cache.{uncached_publish, uncached_acquire, calls-uncached}
use low_latency_event_engine.Ring.Refine.Delivery.{delivery}

-- Two slots for payloads of up to four bytes.
abbrev config : RingConfig
config = record { slot_count = 2; slot_payload_capacity = 4 }

config-HasWidths : HasWidths config
config-HasWidths = omega arith

config-IsAllowed : IsAllowed config
config-IsAllowed = record { power = (1, refl); at_least = omega arith; stride_width = omega arith }

required_sizes :
    (required_bytes config ≡ value 320)
    × (required_bytes (record { slot_count = 3; slot_payload_capacity = 4 })
        ≡ unexpected RingError.invalid_config)
    × (required_bytes (record { slot_count = 2; slot_payload_capacity = 2 ^ 32 - 1 })
        ≡ unexpected RingError.size_overflow)
unfolding required_bytes slot_stride_of align_up
required_sizes = (refl, refl, refl)

abbrev event : ℕ → EventView
event n = record { stream_id = 1; sequence = n; source_timestamp_ns = 0; payload = n ∷ n ∷ [] }

abbrev system : System
system = record { producer = handle true; consumer = handle false; memory = ring }

-- The third event finds the ring full; one is consumed, and the ring is closed.
abbrev calls : List Op
calls =
    publish (event 1)
    ∷ publish (event 2)
    ∷ publish (event 3)
    ∷ acquire
    ∷ release_held
    ∷ close (handle true)
    ∷ publish (event 4)
    ∷ []

calls_seen :
    (call_all system no_history calls).1
    ≡ record { accepted = event 1 ∷ event 2 ∷ []; consumed = event 1 ∷ []; current = none }
unfolding call_all call observe try_publish publish_refreshed publish_slot try_acquire
    acquire_refreshed acquire_slot release close_publication slot_offset fill_slot fill_slot_header
    slot_event invalid_slot copy_at
calls_seen = refl

required_bytes_lem_example :
    (IsAllowed config × (required_bytes config ≡ value (ring_size config)))
    ⊎ (¬ ((2 ≤ 2) × IsPowerOfTwo 2) × (required_bytes config ≡ unexpected RingError.invalid_config))
    ⊎ ((2 ≤ 2)
        × IsPowerOfTwo 2
        × (2 ^ 32 ≤ stride config)
        × (required_bytes config ≡ unexpected RingError.size_overflow))
required_bytes_lem_example = required_bytes_lem config config-HasWidths

slot_offset-in_bounds_example : slot_offset (handle true) 5 + 64 ≤ 64 * 2
slot_offset-in_bounds_example = slot_offset-in_bounds (handle true) ring-IsLinked.geometry 5

slot_offset-disjoint_example :
    (slot_offset (handle true) 5 + 64 ≤ slot_offset (handle true) 6)
    ⊎ (slot_offset (handle true) 6 + 64 ≤ slot_offset (handle true) 5)
slot_offset-disjoint_example =
    slot_offset-disjoint (handle true) ring-IsLinked.geometry 5 1 (omega arith) (omega arith)

ring-IsRoom : IsRoom ring config
ring-IsRoom = record { nonnull = omega arith; aligned = refl; exact = refl; storage = λ i h. refl }

initialize-attach_example :
    (p : SpscRing) × (c : SpscRing) × StartsEmpty p c (initialize ring config 7)
initialize-attach_example =
    initialize-attach ring config 7 config-HasWidths config-IsAllowed ring-IsRoom (omega arith)

try_publish_refines_example :
    PublishRefines
      (handle true)
      (handle false)
      ring
      (event 1)
      (try_publish (handle true) ring (event 1))
try_publish_refines_example = try_publish_refines (event 1) ring-IsLinked

-- The ring behind the publication of one event.
abbrev one_event : Memory
one_event = record ring {
  header = record ring.header { producer = record new_cursor { position = 1 } };
  slots = λ _. record {
    header = record new_slot_header { event_sequence = 1; stream_id = 1; payload_length = 2 };
    bytes = 1 ∷ 1 ∷ replicate 30 0;
  };
}

one_event-IsLinked : IsLinked (handle true) (handle false) one_event
one_event-IsLinked = record {
  p_attached = refl;
  c_attached = refl;
  geometry = ring-IsLinked.geometry;
  same_count = refl;
  same_stride = refl;
  same_capacity = refl;
  order = omega arith;
  lap = omega arith;
  width = omega arith;
  read_cache = omega arith;
  write_cache = omega arith;
  holds = inl refl;
  state = inl refl;
  formatted = λ position. record { storage = refl; reserved0 = refl; reserved1 = refl };
  fitting = λ d h. omega arith;
}

try_acquire_refines_example :
    AcquireRefines (handle true) (handle false) one_event (try_acquire (handle false) one_event)
try_acquire_refines_example = try_acquire_refines one_event-IsLinked

abbrev holder : SpscRing
holder = record (handle false) { cached_write_position = 1; acquired = true }

holder-IsLinked : IsLinked (handle true) holder one_event
holder-IsLinked = record {
  p_attached = refl;
  c_attached = refl;
  geometry = ring-IsLinked.geometry;
  same_count = refl;
  same_stride = refl;
  same_capacity = refl;
  order = omega arith;
  lap = omega arith;
  width = omega arith;
  read_cache = omega arith;
  write_cache = omega arith;
  holds = inr (refl, refl, omega arith);
  state = inl refl;
  formatted = one_event-IsLinked.formatted;
  fitting = one_event-IsLinked.fitting;
}

release_refines_example : ReleaseRefines (handle true) holder one_event (release holder one_event)
release_refines_example = release_refines holder-IsLinked

close_publication_refines_example :
    let (result, m) = close_publication (handle true) one_event in
    (result ≡ true)
    × (queue_of (handle true) (handle false) m
        ≡ Queue.close (queue_of (handle true) (handle false) one_event))
    × IsLinked (handle true) (handle false) m
    × ((◌≡◌ {A = Bool} true true) ⊎ (m ≡ one_event))
    × (m ≡ with_state one_event m.header.preamble.state)
close_publication_refines_example = close_publication_refines one_event-IsLinked (handle true)

delivery_example :
    let (s, h) = call_all system no_history calls in
    SystemIsLinked s × (h.consumed ++ contents s.producer s.memory ≡ h.accepted)
delivery_example = delivery system calls ring-IsLinked refl refl

calls-uncached_example :
    (let (result, _, m) = try_publish (handle true) one_event (event 9) in
      (result, m) ≡ uncached_publish (handle true) one_event (event 9))
    × ((try_acquire (handle false) one_event).0 ≡ uncached_acquire (handle false) one_event)
calls-uncached_example = calls-uncached (event 9) one_event-IsLinked
