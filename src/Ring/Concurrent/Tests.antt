-- ===== src/Ring/Concurrent/Tests.antt =====
-- Interleavings on a ring of two slots.
use low_latency_event_engine.Base.{
  ℕ, ◌+◌, ◌≤◌, ◌≡◌, ◌⊎◌, refl, arith, true, false, List, [], ◌∷◌, ◌++◌, copy_at,
}
use low_latency_event_engine.Event.{EventView}
use low_latency_event_engine.Ring.Ops.{
  AcquireError, slot_offset, slot_event, fill_slot_header, invalid_slot, release, close_publication,
}
use low_latency_event_engine.Ring.Linked.{IsLinked}
use low_latency_event_engine.Ring.Samples.{handle, ring, ring-IsLinked}
use low_latency_event_engine.Ring.Concurrent.{
  producer_idle, consumer_idle, Action, call_publish, produce, call_acquire, consume, call_release,
  call_close, check_ready, check_room, check_refreshed, check_known, check_any, read_slot,
  publish_step, acquire_step, produced, consumed, step, run,
}
use low_latency_event_engine.Ring.Concurrent.Invariant.{pending, any, is_invalid_slot}
use low_latency_event_engine.Ring.Concurrent.Safety.{
  Starts, after, interleaving_fifo, interleaving_drained, interleaving_disjoint,
}
use low_latency_event_engine.Ring.Concurrent.WaitFree.{wait_free}

abbrev event : ℕ → EventView
event n = record { stream_id = 1; sequence = n; source_timestamp_ns = 10; payload = n ∷ n ∷ [] }

ring-Starts : Starts (handle true) (handle false) ring
ring-Starts = record { linked = ring-IsLinked; empty = refl; idle = refl }

-- The producer is in its second publication, the consumer holds the first event.
abbrev overlapping : List Action
overlapping =
    call_publish (event 1)
    ∷ produce
    ∷ produce
    ∷ call_acquire
    ∷ produce
    ∷ consume
    ∷ produce
    ∷ produce
    ∷ consume
    ∷ consume
    ∷ consume
    ∷ call_publish (event 2)
    ∷ produce
    ∷ produce
    ∷ produce
    ∷ []

-- The same, until the consumer has drained a closed ring.
abbrev draining : List Action
draining =
    overlapping
    ++ (produce
        ∷ produce
        ∷ call_close (handle true)
        ∷ call_release
        ∷ call_acquire
        ∷ consume
        ∷ consume
        ∷ consume
        ∷ consume
        ∷ call_release
        ∷ call_acquire
        ∷ consume
        ∷ consume
        ∷ consume
        ∷ consume
        ∷ [])

draining_history : (after (handle true) (handle false) ring draining).1 ≡ record {
  accepted = event 1 ∷ event 2 ∷ [];
  given = event 1 ∷ event 2 ∷ [];
  refusals = AcquireError.closed ∷ [];
}
unfolding run step publish_step acquire_step produced consumed check_ready check_room
    check_refreshed check_known check_any read_slot slot_offset slot_event fill_slot_header
    invalid_slot release close_publication copy_at
draining_history = refl

interleaving_fifo_example :
    let (s, h) = after (handle true) (handle false) ring draining in
    (h.given ++ pending s.producer s.consumer s.memory ≡ h.accepted)
    × (any is_invalid_slot h.refusals ≡ false)
    × IsLinked s.producer s.consumer s.memory
interleaving_fifo_example = interleaving_fifo (handle true) (handle false) ring ring-Starts draining

interleaving_drained_example :
    let (_, h) = after (handle true) (handle false) ring draining in h.given ≡ h.accepted
unfolding run step publish_step acquire_step produced consumed check_ready check_room
    check_refreshed check_known check_any read_slot slot_offset slot_event fill_slot_header
    invalid_slot release close_publication copy_at
interleaving_drained_example =
    interleaving_drained (handle true) (handle false) ring ring-Starts draining refl

interleaving_disjoint_example :
    let (s, _) = after (handle true) (handle false) ring overlapping in
    (slot_offset s.producer 0 + s.producer.slot_stride ≤ slot_offset s.producer 1)
    ⊎ (slot_offset s.producer 1 + s.producer.slot_stride ≤ slot_offset s.producer 0)
unfolding run step publish_step acquire_step produced consumed check_ready check_room
    check_refreshed check_known check_any read_slot slot_offset slot_event fill_slot_header
    invalid_slot release close_publication copy_at
interleaving_disjoint_example =
    interleaving_disjoint (handle true) (handle false) ring ring-Starts overlapping 1 0 refl
      (refl, refl)

abbrev six_steps : List Action
six_steps = produce ∷ produce ∷ produce ∷ consume ∷ produce ∷ produce ∷ produce ∷ []

abbrev four_steps : List Action
four_steps = consume ∷ produce ∷ consume ∷ consume ∷ consume ∷ []

wait_free_example :
    let (s, h) = after (handle true) (handle false) ring overlapping in
    ((run s h six_steps).0.producer_pc ≡ producer_idle)
    × ((run s h four_steps).0.consumer_pc ≡ consumer_idle)
wait_free_example =
    wait_free (after (handle true) (handle false) ring overlapping).0
      (after (handle true) (handle false) ring overlapping).1 six_steps four_steps tt (omega arith)
      tt (omega arith)
