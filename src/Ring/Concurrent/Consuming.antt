-- ===== src/Ring/Concurrent/Consuming.antt =====
-- The steps of `try_acquire` of include/shm/spsc_ring.hpp keep the invariant of the two threads.
use low_latency_event_engine.Base.{
  ℕ, ◌<◌, ◌≡◌, ◌≢◌, ◌⊎◌, inl, inr, refl, sym, ap, ◌∙◌, arith, true, false, if◌then◌else◌, [], ◌∷◌,
  ◌++◌, Bool-cases, value, unexpected,
}
use mathlib.Core.List.{append_assoc}
use native.Mathlib.Decide.{dec_lt, ℕ_discrete}
use low_latency_event_engine.Ring.Layout.{RingState, state_value, Memory}
use low_latency_event_engine.Ring.Setup.{SpscRing}
use low_latency_event_engine.Ring.Ops.{AcquireError, slot_event}
use low_latency_event_engine.Ring.Queue.{drop_first}
use low_latency_event_engine.Ring.Linked.{read_position, write_position, event_at, contents}
use low_latency_event_engine.Ring.Refine.Acquire.{
  contents-eq, same_slot, oldest_valid, refreshed, refreshed-IsLinked, holding, holding-IsLinked,
}
use low_latency_event_engine.Ring.Concurrent.{
  ProducerPc, ConsumerPc, consumer_idle, loads_own_cursor, loads_state, loads_write_cursor,
  reads_slot, moves_on, gives, History, check_known, check_any, read_slot, acquire_step, consumed,
}
use low_latency_event_engine.Ring.Concurrent.Invariant.{
  ConsumerAt, any-snoc, is_closed_error, is_invalid_slot, IsSound,
}
use low_latency_event_engine.Ring.Concurrent.Frames.{threads}

-- The step keeps the invariant.
abbrev pub ConsumeIsSound :
    SpscRing → SpscRing → Memory → ProducerPc → ConsumerPc → History → Type 0
ConsumeIsSound p c m pc cpc h =
    let (out, c') = acquire_step cpc c m in
    let (cpc', h') = consumed out h in IsSound (threads p c' m pc cpc') h'

abbrev refused : History → AcquireError → History
refused h error = record h { refusals = h.refusals ++ (error ∷ []) }

module _ {p c : SpscRing} {m : Memory} {pc : ProducerPc} {cpc : ConsumerPc} {h : History}
    (v : IsSound (threads p c m pc cpc) h) where
  -- Only the program counter moves.
  pub moved : (cpc' : ConsumerPc) → ConsumerAt cpc' c m → IsSound (threads p c m pc cpc') h
  moved cpc' at = record {
    linked = v.linked;
    producer_at = v.producer_at;
    consumer_at = at;
    outside = v.outside;
    fifo = v.fifo;
    held = v.held;
    drained = v.drained;
    no_invalid = v.no_invalid;
  }

  -- The call returns an error that says nothing about the end.
  refused-IsSound :
      (error : AcquireError)
      → is_closed_error error ≡ false
      → is_invalid_slot error ≡ false
      → IsSound (threads p c m pc consumer_idle) (refused h error)
  refused-IsSound error open_ valid = record {
    linked = v.linked;
    producer_at = v.producer_at;
    consumer_at = tt;
    outside = v.outside;
    fifo = v.fifo;
    held = v.held;
    drained = elim v.drained [
      | inl no_end ↦ inl (any-snoc is_closed_error h.refusals error open_ ∙ no_end)
      | inr end ↦ inr end
    ];
    no_invalid = any-snoc is_invalid_slot h.refusals error valid ∙ v.no_invalid;
  }

  -- The consumer looks at the producer's cursor.
  refreshed-IsSound :
      (cpc' : ConsumerPc)
      → ConsumerAt cpc' (refreshed c m) m
      → IsSound (threads p (refreshed c m) m pc cpc') h
  refreshed-IsSound cpc' at = record {
    linked = refreshed-IsLinked v.linked;
    producer_at = v.producer_at;
    consumer_at = at;
    outside = v.outside;
    fifo = v.fifo;
    held = v.held;
    drained = v.drained;
    no_invalid = v.no_invalid;
  }

  -- The call says that the ring is closed and empty.
  closed-IsSound :
      m.header.preamble.state ≡ state_value RingState.closed
      → read_position m ≡ write_position m
      → IsSound (threads p c m pc consumer_idle) (refused h AcquireError.closed)
  closed-IsSound shut done = record {
    linked = v.linked;
    producer_at = v.producer_at;
    consumer_at = tt;
    outside = v.outside;
    fifo = v.fifo;
    held = v.held;
    drained = inr (shut, done);
    no_invalid = any-snoc is_invalid_slot h.refusals AcquireError.closed refl ∙ v.no_invalid;
  }

  -- The call gives the oldest event, which the consumer holds from then on.
  given-IsSound :
      c.acquired ≡ false
      → read_position m < write_position m
      → IsSound
          (threads p (holding c m) m pc consumer_idle)
          (record h { given = h.given ++ (event_at p m (read_position m) ∷ []) })
  given-IsSound idle below = record {
    linked = holding-IsLinked v.linked below;
    producer_at = v.producer_at;
    consumer_at = tt;
    outside = v.outside;
    fifo =
        append_assoc h.given (event_at p m (read_position m) ∷ []) (drop_first (contents p m))
        ∙ ap (λ xs. h.given ++ xs) first_back
        ∙ all_pending;
    held = inr (h.given, refl);
    drained = v.drained;
    no_invalid = v.no_invalid;
  }
    where
      first_back : (event_at p m (read_position m) ∷ []) ++ drop_first (contents p m) ≡ contents p m
      first_back =
          let e = contents-eq v.linked below in
          ap (λ xs. (event_at p m (read_position m) ∷ []) ++ drop_first xs) e ∙ sym e

      all_pending : h.given ++ contents p m ≡ h.accepted
      all_pending =
          ap (λ b. h.given ++ (if b then drop_first (contents p m) else contents p m)) (sym idle)
          ∙ v.fifo

module _ {p c : SpscRing} {m : Memory} {pc : ProducerPc} {h : History} where
  consume-loads_own_cursor :
      IsSound (threads p c m pc loads_own_cursor) h → ConsumeIsSound p c m pc loads_own_cursor h
  unfolding acquire_step consumed
  consume-loads_own_cursor v = elim (Bool-cases c.acquired) [
    | inl busy ↦ rw (again busy) (refused-IsSound v AcquireError.already_acquired refl refl)
    | inr idle ↦ elim (dec_lt (read_position m) c.cached_write_position) [
      | yes known ↦
          rw (reads idle known) (
            moved v (reads_slot (read_position m)) (record { position = refl; idle = idle }, known))
      | no stale ↦
          rw (looks idle stale)
            (moved v (loads_state (read_position m)) (record { position = refl; idle = idle }))
    ]
  ]
    where
      again :
          c.acquired ≡ true
          → check_known c (read_position m) ≡ gives (unexpected AcquireError.already_acquired)
      again e = unfold check_known in ground (arith, v.linked.c_attached)

      reads :
          c.acquired ≡ false
          → read_position m < c.cached_write_position
          → check_known c (read_position m) ≡ moves_on (reads_slot (read_position m))
      reads e k = unfold check_known in ground (arith, v.linked.c_attached)

      looks :
          c.acquired ≡ false
          → ¬ (read_position m < c.cached_write_position)
          → check_known c (read_position m) ≡ moves_on (loads_state (read_position m))
      looks e k = unfold check_known in ground (arith, v.linked.c_attached)

  consume-loads_state :
      (r : ℕ)
      → IsSound (threads p c m pc (loads_state r)) h
      → ConsumeIsSound p c m pc (loads_state r) h
  unfolding acquire_step consumed
  consume-loads_state r v =
      moved v (loads_write_cursor r m.header.preamble.state) (v.consumer_at, seen)
    where
      seen :
          (m.header.preamble.state ≢ state_value RingState.closed)
          ⊎ (m.header.preamble.state ≡ state_value RingState.closed)
      seen = elim (ℕ_discrete m.header.preamble.state 3) [ yes e ↦ inr e | no e ↦ inl e ]

  consume-loads_write_cursor :
      (st : ℕ)
      → IsSound (threads p c m pc (loads_write_cursor (read_position m) st)) h
      → ConsumeIsSound p c m pc (loads_write_cursor (read_position m) st) h
  unfolding acquire_step consumed
  consume-loads_write_cursor st v = elim (ℕ_discrete (read_position m) (write_position m)) [
    | no some_left ↦ rw (goes some_left) (
        refreshed-IsSound v (reads_slot (read_position m))
          (record { position = refl; idle = idle }, omega (arith, v.linked.order)))
    | yes none_left ↦ elim (ℕ_discrete st (state_value RingState.closed)) [
      | yes shut ↦
          rw (ends none_left shut)
            (closed-IsSound quiet (ground (arith, v.consumer_at.1)) none_left)
      | no open_ ↦ rw (waits none_left open_) (refused-IsSound quiet AcquireError.empty refl refl)
    ]
  ]
    where
      idle : c.acquired ≡ false
      idle = v.consumer_at.0.idle

      quiet : IsSound (threads p (refreshed c m) m pc consumer_idle) h
      quiet = refreshed-IsSound v consumer_idle tt

      goes :
          read_position m ≢ write_position m
          → check_any (read_position m) st (write_position m)
            ≡ moves_on (reads_slot (read_position m))
      goes n = unfold check_any in ground (arith, n)

      ends :
          read_position m ≡ write_position m
          → st ≡ 3
          → check_any (read_position m) st (write_position m)
            ≡ gives (unexpected AcquireError.closed)
      ends e s = unfold check_any in ground (arith, e, s)

      waits :
          read_position m ≡ write_position m
          → st ≢ 3
          → check_any (read_position m) st (write_position m)
            ≡ gives (unexpected AcquireError.empty)
      waits e s = unfold check_any in ground (arith, e, s)

  consume-reads_slot :
      IsSound (threads p c m pc (reads_slot (read_position m))) h
      → ConsumeIsSound p c m pc (reads_slot (read_position m)) h
  unfolding acquire_step consumed
  consume-reads_slot v = rw taken (given-IsSound v v.consumer_at.0.idle below)
    where
      below : read_position m < write_position m
      below = omega (arith, v.consumer_at.1, v.linked.write_cache)

      here :
          read_slot (read_position m) c m
          ≡ (gives (value (event_at c m (read_position m))), holding c m)
      here =
          unfold read_slot in
          ground (
            arith,
            oldest_valid v.linked below,
            v.consumer_at.1,
            v.linked.write_cache,
            v.linked.lap,
            v.linked.same_count,
            v.linked.width,
          )

      taken :
          read_slot (read_position m) c m
          ≡ (gives (value (event_at p m (read_position m))), holding c m)
      taken =
          here
          ∙ ap (λ s. (gives (value (slot_event s)), holding c m))
              (same_slot v.linked (read_position m))

-- Every step of the consumer keeps the invariant.
pub consume-IsSound :
    (p c : SpscRing) (m : Memory) (pc : ProducerPc) (cpc : ConsumerPc) (h : History)
    → IsSound (threads p c m pc cpc) h
    → ConsumeIsSound p c m pc cpc h
consume-IsSound p c m pc consumer_idle h v = unfold acquire_step consumed in v
consume-IsSound p c m pc loads_own_cursor h v = consume-loads_own_cursor v
consume-IsSound p c m pc (loads_state r) h v = consume-loads_state r v
consume-IsSound p c m pc (loads_write_cursor r st) h v =
    let at = v.consumer_at.0.position in rw at (consume-loads_write_cursor st (rw at at v))
consume-IsSound p c m pc (reads_slot r) h v =
    let at = v.consumer_at.0.position in rw at (consume-reads_slot (rw at at v))
