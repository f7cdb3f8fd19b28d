-- ===== src/Ring/Refine/Acquire.antt =====
-- `try_acquire` of include/shm/spsc_ring.hpp.
use low_latency_event_engine.Base.{
  ℕ, ◌+◌, ◌-◌, ◌≤◌, ◌<◌, ◌≡◌, inl, inr, refl, ap, arith, [], ◌∷◌, true, false, ◌==◌, if◌then◌else◌,
  value, unexpected, Bool-cases,
}
use native.Mathlib.Decide.{dec_lt}
use low_latency_event_engine.Ring.Layout.{Memory}
use low_latency_event_engine.Ring.Setup.{SpscRing}
use low_latency_event_engine.Ring.Ops.{
  AcquireError, Acquired, slot_offset, slot_event, invalid_slot, acquire_slot, acquire_refreshed,
  try_acquire,
}
use low_latency_event_engine.Ring.Queue.{Queue}
use low_latency_event_engine.Ring.Queue
use low_latency_event_engine.Ring.Linked.{
  read_position, write_position, slot_at, IsLinked, window, window-suc, event_at, contents,
  queue_of,
}

-- The operation behaves as `Queue.acquire` on the queue of the memory, and keeps the invariant.
abbrev pub AcquireRefines : SpscRing → SpscRing → Memory → Acquired → Type 0
AcquireRefines p c m out =
    let (result, c') = out in
    let (result', q) = Queue.acquire (queue_of p c m) in
    (result ≡ result') × (queue_of p c' m ≡ q) × IsLinked p c' m

abbrev pub holding : SpscRing → Memory → SpscRing
holding c m = record c { acquired_position = read_position m; acquired = true }

abbrev pub refreshed : SpscRing → Memory → SpscRing
refreshed c m = record c { cached_write_position = write_position m }

module _ {p c : SpscRing} {m : Memory} (v : IsLinked p c m) where
  same_offset : (position : ℕ) → slot_offset c position ≡ slot_offset p position
  unfolding slot_offset
  same_offset position = rw (v.same_count, v.same_stride)

  pub same_slot : (position : ℕ) → slot_at c m position ≡ slot_at p m position
  same_slot position = ap m.slots (same_offset position)

  pub oldest_valid :
      read_position m < write_position m
      → invalid_slot (slot_at c m (read_position m)).header c.slot_payload_capacity ≡ false
  unfolding invalid_slot
  oldest_valid h = rw same_slot (
      ground (
        arith,
        v.same_capacity,
        (v.formatted (read_position m)).reserved0,
        (v.formatted (read_position m)).reserved1,
        fits,
      ))
    where
      fits : (slot_at p m (read_position m)).header.payload_length ≤ p.slot_payload_capacity
      fits =
          rw (let z : read_position m + 0 ≡ read_position m = omega arith in z) at
            (v.fitting 0 (omega arith))

  pub refreshed-IsLinked : IsLinked p (refreshed c m) m
  refreshed-IsLinked = record {
    p_attached = v.p_attached;
    c_attached = v.c_attached;
    geometry = v.geometry;
    same_count = v.same_count;
    same_stride = v.same_stride;
    same_capacity = v.same_capacity;
    order = v.order;
    lap = v.lap;
    width = v.width;
    read_cache = v.read_cache;
    write_cache = omega arith;
    holds = v.holds;
    state = v.state;
    formatted = v.formatted;
    fitting = v.fitting;
  }

  pub holding-IsLinked : read_position m < write_position m → IsLinked p (holding c m) m
  holding-IsLinked h = record {
    p_attached = v.p_attached;
    c_attached = v.c_attached;
    geometry = v.geometry;
    same_count = v.same_count;
    same_stride = v.same_stride;
    same_capacity = v.same_capacity;
    order = v.order;
    lap = v.lap;
    width = v.width;
    read_cache = v.read_cache;
    write_cache = v.write_cache;
    holds = inr (refl, refl, h);
    state = v.state;
    formatted = v.formatted;
    fitting = v.fitting;
  }

  -- The events from the oldest on.
  pub contents-eq :
      read_position m < write_position m
      → contents p m
        ≡ event_at p m (read_position m)
          ∷ window (event_at p m) (read_position m + 1) (write_position m - read_position m - 1)
  contents-eq h =
      window-suc (event_at p m) (read_position m) (write_position m - read_position m) (omega arith)

  contents-empty : read_position m ≡ write_position m → contents p m ≡ []
  contents-empty e =
      let z : write_position m - read_position m ≡ 0 = omega arith in
      ap (window (event_at p m) (read_position m)) z

  acquire-ready :
      c.acquired ≡ false
      → read_position m < c.cached_write_position
      → AcquireRefines p c m (acquire_slot c m)
  acquire-ready idle known =
      rw (taken, shown)
        (ap (λ s. value (slot_event s)) (same_slot (read_position m)), refl, holding-IsLinked below)
    where
      below : read_position m < write_position m
      below = omega (arith, v.write_cache)

      taken : acquire_slot c m ≡ (value (event_at c m (read_position m)), holding c m)
      taken =
          unfold acquire_slot in
          ground (arith, oldest_valid below, v.write_cache, v.lap, v.same_count, v.width)

      shown :
          Queue.acquire (queue_of p c m)
          ≡ (value (event_at p m (read_position m)), record (queue_of p c m) { held = true })
      shown = unfold Queue.acquire in ground (arith, contents-eq below)

module _ {p c : SpscRing} {m : Memory} (v : IsLinked p c m) where
  acquire-stale :
      c.acquired ≡ false
      → c.cached_write_position ≤ read_position m
      → AcquireRefines p c m (try_acquire c m)
  acquire-stale idle stale = elim (dec_lt (read_position m) (write_position m)) [
    | yes some_left ↦ rw (refresh some_left) (acquire-ready (refreshed-IsLinked v) idle some_left)
    | no none_left ↦ rw (drained none_left, reported none_left) (refl, refl, refreshed-IsLinked v)
  ]
    where
      refresh :
          read_position m < write_position m → try_acquire c m ≡ acquire_slot (refreshed c m) m
      refresh h = unfold try_acquire acquire_refreshed in ground (arith, v.c_attached)

      drained :
          ¬ (read_position m < write_position m)
          → try_acquire c m ≡ (
            unexpected
                (if m.header.preamble.state == 3 then AcquireError.closed else AcquireError.empty),
            refreshed c m,
          )
      drained h = unfold try_acquire acquire_refreshed in ground (arith, v.c_attached, v.order)

      reported :
          ¬ (read_position m < write_position m)
          → Queue.acquire (queue_of p c m) ≡ (
            unexpected
                (if m.header.preamble.state == 3 then AcquireError.closed else AcquireError.empty),
            queue_of p c m,
          )
      reported h =
          let e : contents p m ≡ [] = contents-empty v (omega (arith, v.order)) in
          unfold Queue.acquire in ground (arith, e)

  -- On handles that are linked through a ring's memory, `try_acquire` returns what the bounded queue
  -- returns, on every branch: the oldest event, `Empty`, `Closed` or `AlreadyAcquired`, and never
  -- `InvalidSlot`. It keeps the invariant of the two handles.
  pub try_acquire_refines : AcquireRefines p c m (try_acquire c m)
  try_acquire_refines = elim (Bool-cases c.acquired) [
    | inl busy ↦ rw (again busy, q_again busy) (refl, refl, v)
    | inr idle ↦ elim (dec_lt (read_position m) c.cached_write_position) [
      | yes known ↦ rw (direct idle known) (acquire-ready v idle known)
      | no stale ↦ acquire-stale idle (omega arith)
    ]
  ]
    where
      again : c.acquired ≡ true → try_acquire c m ≡ (unexpected AcquireError.already_acquired, c)
      again h = unfold try_acquire in ground (arith, v.c_attached)

      q_again :
          c.acquired ≡ true
          → Queue.acquire (queue_of p c m)
            ≡ (unexpected AcquireError.already_acquired, queue_of p c m)
      q_again h = unfold Queue.acquire in ground arith

      direct :
          c.acquired ≡ false
          → read_position m < c.cached_write_position
          → try_acquire c m ≡ acquire_slot c m
      direct h k = unfold try_acquire in ground (arith, v.c_attached)
