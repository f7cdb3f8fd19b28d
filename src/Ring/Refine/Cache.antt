-- ===== src/Ring/Refine/Cache.antt =====
-- The cached cursors of include/shm/spsc_ring.hpp make no difference to what a call does.
use low_latency_event_engine.Base.{
  ◌+◌, ◌^◌, ◌≡◌, inl, inr, arith, ◌==◌, ◌!=◌, ltb, Bool-cases, if◌then◌else◌, length, u64_max,
  Expected, value, unexpected,
}
use native.Mathlib.Decide.{dec_lt, dec_le}
use low_latency_event_engine.Event.{EventView, PublishResult}
use low_latency_event_engine.Ring.Layout.{Memory, RingState, state_value}
use low_latency_event_engine.Ring.Setup.{SpscRing}
use low_latency_event_engine.Ring.Ops.{
  AcquireError, publish_slot, publish_refreshed, try_publish, acquire_slot, acquire_refreshed,
  try_acquire, slot_offset,
}
use low_latency_event_engine.Ring.Refine.Write.{written}
use low_latency_event_engine.Ring.Refine.Acquire.{oldest_valid}
use low_latency_event_engine.Ring.Linked.{IsLinked, event_at, read_position, write_position}

-- A publication that looks at both cursors in the memory, and has no cache: its result and the memory.
pub uncached_publish : SpscRing → Memory → EventView → PublishResult × Memory
uncached_publish p m e =
    if m.header.preamble.state != state_value RingState.ready
    then (PublishResult.closed, m)
    else if ltb p.slot_payload_capacity (length e.payload)
    then (PublishResult.payload_too_large, m)
    else if write_position m == u64_max
    then (PublishResult.closed, m)
    else if write_position m == read_position m + p.slot_count
    then (PublishResult.full, m)
    else (PublishResult.ok, written p m e)

-- An acquisition in the same way: its result.
pub uncached_acquire : SpscRing → Memory → Expected EventView AcquireError
uncached_acquire c m =
    if c.acquired
    then unexpected AcquireError.already_acquired
    else if read_position m == write_position m
    then unexpected (
        if m.header.preamble.state == state_value RingState.closed
        then AcquireError.closed
        else AcquireError.empty)
    else value (event_at c m (read_position m))

module _ {p c : SpscRing} {m : Memory} (e : EventView) (v : IsLinked p c m) where
  try_publish-uncached :
      let (result, _, m') = try_publish p m e in (result, m') ≡ uncached_publish p m e
  try_publish-uncached = elim v.state [
    | inr shut ↦ unfold try_publish uncached_publish in ground (arith, v.p_attached)
    | inl ready ↦ elim (dec_le (length e.payload) p.slot_payload_capacity) [
      | no large ↦ unfold try_publish uncached_publish in ground (arith, v.p_attached)
      | yes room ↦ elim (dec_lt (write_position m + 1) (2 ^ 64)) [
        | no last ↦ unfold try_publish uncached_publish in ground (arith, v.p_attached, v.width)
        | yes more ↦ elim (dec_lt (write_position m) (read_position m + p.slot_count)) [
          | no at_end ↦
              unfold try_publish publish_refreshed uncached_publish in
              ground
                (arith, v.p_attached, v.order, v.lap, v.read_cache, v.width, v.geometry.count_width)
          | yes free ↦
              unfold try_publish publish_refreshed publish_slot slot_offset uncached_publish in
              ground (arith, v.p_attached, v.order, v.read_cache, v.width, v.geometry.count_width)
        ]
      ]
    ]
  ]

  try_acquire-uncached : (try_acquire c m).0 ≡ uncached_acquire c m
  try_acquire-uncached = elim (Bool-cases c.acquired) [
    | inl busy ↦ unfold try_acquire uncached_acquire in ground (arith, v.c_attached)
    | inr idle ↦ elim (dec_lt (read_position m) c.cached_write_position) [
      | yes known ↦
          unfold try_acquire acquire_slot uncached_acquire in
          ground (
            arith,
            v.c_attached,
            oldest_valid v (omega (arith, v.write_cache)),
            v.write_cache,
            v.lap,
            v.same_count,
            v.width,
          )
      | no stale ↦ elim (dec_lt (read_position m) (write_position m)) [
        | no none_left ↦
            unfold try_acquire acquire_refreshed uncached_acquire in
            ground (arith, v.c_attached, v.order)
        | yes some_left ↦
            unfold try_acquire acquire_refreshed acquire_slot slot_offset uncached_acquire in
            ground
              (arith, v.c_attached, oldest_valid v some_left, v.lap, v.same_count, v.width, v.order)
      ]
    ]
  ]

  -- Cached cursors make no difference: on linked handles `try_publish` gives the result and leaves the
  -- memory of a publication that has no cache and reads the consumer's cursor each time, and
  -- `try_acquire` gives the result of an acquisition that reads the producer's cursor each time,
  -- however old the cached ones are.
  pub calls-uncached :
      (let (result, _, m') = try_publish p m e in (result, m') ≡ uncached_publish p m e)
      × ((try_acquire c m).0 ≡ uncached_acquire c m)
  calls-uncached = (try_publish-uncached, try_acquire-uncached)
