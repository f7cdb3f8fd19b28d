-- ===== src/Ring/Refine/Publish.antt =====
-- `try_publish` of include/shm/spsc_ring.hpp.
use low_latency_event_engine.Base.{
  ◌+◌, ◌-◌, ◌^◌, ◌≤◌, ◌<◌, ◌≡◌, inl, inr, refl, arith, [], ◌∷◌, ◌++◌, length,
}
use native.Mathlib.Decide.{dec_lt, dec_le}
use low_latency_event_engine.Event.{EventView, PublishResult}
use low_latency_event_engine.Ring.Layout.{RingState, state_value, Memory}
use low_latency_event_engine.Ring.Setup.{SpscRing}
use low_latency_event_engine.Ring.Ops.{
  slot_offset, publish_slot, publish_refreshed, try_publish, Published,
}
use low_latency_event_engine.Ring.Queue.{Queue}
use low_latency_event_engine.Ring.Queue
use low_latency_event_engine.Ring.Linked.{
  read_position, write_position, IsLinked, length-window, event_at, contents, queue_of,
}
use low_latency_event_engine.Ring.Refine.Write.{
  written, write_position-advanced, contents-written, written-IsLinked,
}

-- The operation behaves as `Queue.publish` on the queue of the memory, and keeps the invariant.
abbrev pub PublishRefines : SpscRing → SpscRing → Memory → EventView → Published → Type 0
PublishRefines p c m e out =
    let (result, p', m') = out in
    let (result', q) = Queue.publish p.slot_count p.slot_payload_capacity (queue_of p c m) e in
    (result ≡ result') × (queue_of p' c m' ≡ q) × IsLinked p' c m'

abbrev pub refreshed : SpscRing → Memory → SpscRing
refreshed p m = record p { cached_read_position = read_position m }

pub refreshed-IsLinked :
    {p c : SpscRing} {m : Memory} → IsLinked p c m → IsLinked (refreshed p m) c m
unfolding slot_offset
refreshed-IsLinked v = record {
  p_attached = v.p_attached;
  c_attached = v.c_attached;
  geometry = v.geometry;
  same_count = v.same_count;
  same_stride = v.same_stride;
  same_capacity = v.same_capacity;
  order = v.order;
  lap = v.lap;
  width = v.width;
  read_cache = omega arith;
  write_cache = v.write_cache;
  holds = v.holds;
  state = v.state;
  formatted = v.formatted;
  fitting = v.fitting;
}

module _ {p c : SpscRing} {m : Memory} (e : EventView) (v : IsLinked p c m) where
  queue_length : length (contents p m) ≡ write_position m - read_position m
  queue_length = length-window (event_at p m) (read_position m) (write_position m - read_position m)

  publish-ready :
      m.header.preamble.state ≡ state_value RingState.ready
      → write_position m < read_position m + p.slot_count
      → write_position m + 1 < 2 ^ 64
      → length e.payload ≤ p.slot_payload_capacity
      → PublishRefines p c m e (publish_slot p m e)
  unfolding publish_slot
  publish-ready ready free more room =
      rw appended (refl, after, written-IsLinked e v free more room)
    where
      longer : Queue
      longer = record (queue_of p c m) {
        items = contents p m ++ (e ∷ []);
        published = write_position m + 1;
      }

      appended :
          Queue.publish p.slot_count p.slot_payload_capacity (queue_of p c m) e
          ≡ (PublishResult.ok, longer)
      appended = unfold Queue.publish in ground (arith, queue_length, v.order)

      after : queue_of p c (written p m e) ≡ longer
      after i = record (queue_of p c m) {
        items = contents-written e v free more room i;
        published = write_position-advanced v free more i;
      }

  publish-rejected :
      (result : PublishResult)
      → Queue.publish p.slot_count p.slot_payload_capacity (queue_of p c m) e
        ≡ (result, queue_of p c m)
      → PublishRefines p c m e (result, p, m)
  publish-rejected result eq = rw eq (refl, refl, v)

  from_refreshed :
      {out : Published} → PublishRefines (refreshed p m) c m e out → PublishRefines p c m e out
  unfolding slot_offset
  from_refreshed h = h

module _ {p c : SpscRing} {m : Memory} (e : EventView) (v : IsLinked p c m) where
  try_publish-ready :
      m.header.preamble.state ≡ state_value RingState.ready
      → length e.payload ≤ p.slot_payload_capacity
      → write_position m + 1 < 2 ^ 64
      → PublishRefines p c m e (try_publish p m e)
  try_publish-ready ready room more =
      elim (dec_lt (write_position m) (p.cached_read_position + p.slot_count)) [
        | yes known ↦
            rw (direct known) (publish-ready e v ready (omega (arith, v.read_cache)) more room)
        | no stale ↦ elim (dec_lt (write_position m) (read_position m + p.slot_count)) [
          | yes free ↦ rw (refresh_free stale free) (from_refreshed e v (after_refresh free))
          | no at_end ↦ rw (refresh_full stale at_end) (from_refreshed e v (full_after at_end))
        ]
      ]
    where
      direct :
          write_position m < p.cached_read_position + p.slot_count
          → try_publish p m e ≡ publish_slot p m e
      direct known =
          unfold try_publish in
          ground (arith, v.p_attached, v.order, v.read_cache, v.width, v.geometry.count_width)

      refresh_free :
          ¬ (write_position m < p.cached_read_position + p.slot_count)
          → write_position m < read_position m + p.slot_count
          → try_publish p m e ≡ publish_slot (refreshed p m) m e
      refresh_free stale free =
          unfold try_publish publish_refreshed in
          ground (arith, v.p_attached, v.order, v.read_cache, v.width, v.geometry.count_width)

      refresh_full :
          ¬ (write_position m < p.cached_read_position + p.slot_count)
          → ¬ (write_position m < read_position m + p.slot_count)
          → try_publish p m e ≡ (PublishResult.full, refreshed p m, m)
      refresh_full stale at_end =
          unfold try_publish publish_refreshed in
          ground
            (arith, v.p_attached, v.order, v.lap, v.read_cache, v.width, v.geometry.count_width)

      after_refresh :
          write_position m < read_position m + p.slot_count
          → PublishRefines (refreshed p m) c m e (publish_slot (refreshed p m) m e)
      after_refresh free = publish-ready e (refreshed-IsLinked v) ready free more room

      full_after :
          ¬ (write_position m < read_position m + p.slot_count)
          → PublishRefines (refreshed p m) c m e (PublishResult.full, refreshed p m, m)
      full_after at_end = publish-rejected e (refreshed-IsLinked v) PublishResult.full no_room
        where
          no_room :
              Queue.publish p.slot_count p.slot_payload_capacity (queue_of (refreshed p m) c m) e
              ≡ (PublishResult.full, queue_of (refreshed p m) c m)
          no_room =
              unfold Queue.publish in
              ground (arith, queue_length e (refreshed-IsLinked v), v.order, v.lap)

  -- On handles that are linked through a ring's memory, `try_publish` returns what the bounded queue
  -- returns, on every branch, leaves the memory holding the queue's next state, and keeps the
  -- invariant of the two handles.
  pub try_publish_refines : PublishRefines p c m e (try_publish p m e)
  try_publish_refines = elim v.state [
    | inr shut ↦ rw (closed shut) (publish-rejected e v PublishResult.closed (q_closed shut))
    | inl ready ↦ elim (dec_le (length e.payload) p.slot_payload_capacity) [
      | no large ↦
          rw (too_large ready large)
            (publish-rejected e v PublishResult.payload_too_large (q_too_large ready large))
      | yes room ↦ elim (dec_lt (write_position m + 1) (2 ^ 64)) [
        | yes more ↦ try_publish-ready ready room more
        | no last ↦
            rw (exhausted ready room last)
              (publish-rejected e v PublishResult.closed (q_exhausted ready room last))
      ]
    ]
  ]
    where
      closed : m.header.preamble.state ≡ 3 → try_publish p m e ≡ (PublishResult.closed, p, m)
      closed h = unfold try_publish in ground (arith, v.p_attached)

      q_closed :
          m.header.preamble.state ≡ 3
          → Queue.publish p.slot_count p.slot_payload_capacity (queue_of p c m) e
            ≡ (PublishResult.closed, queue_of p c m)
      q_closed h = unfold Queue.publish in ground arith

      too_large :
          m.header.preamble.state ≡ 2
          → ¬ (length e.payload ≤ p.slot_payload_capacity)
          → try_publish p m e ≡ (PublishResult.payload_too_large, p, m)
      too_large h l = unfold try_publish in ground (arith, v.p_attached)

      q_too_large :
          m.header.preamble.state ≡ 2
          → ¬ (length e.payload ≤ p.slot_payload_capacity)
          → Queue.publish p.slot_count p.slot_payload_capacity (queue_of p c m) e
            ≡ (PublishResult.payload_too_large, queue_of p c m)
      q_too_large h l = unfold Queue.publish in ground arith

      exhausted :
          m.header.preamble.state ≡ 2
          → length e.payload ≤ p.slot_payload_capacity
          → ¬ (write_position m + 1 < 2 ^ 64)
          → try_publish p m e ≡ (PublishResult.closed, p, m)
      exhausted h r l = unfold try_publish in ground (arith, v.p_attached, v.width)

      q_exhausted :
          m.header.preamble.state ≡ 2
          → length e.payload ≤ p.slot_payload_capacity
          → ¬ (write_position m + 1 < 2 ^ 64)
          → Queue.publish p.slot_count p.slot_payload_capacity (queue_of p c m) e
            ≡ (PublishResult.closed, queue_of p c m)
      q_exhausted h r l = unfold Queue.publish in ground (arith, v.width)
