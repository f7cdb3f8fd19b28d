-- ===== src/Ring/Queue.antt =====
-- What include/shm/spsc_ring.hpp promises: a bounded queue of events, of which one may be held.
use low_latency_event_engine.Base.{
  ℕ, ◌+◌, List, [], ◌∷◌, ◌++◌, Bool, true, false, ◌==◌, ltb, if◌then◌else◌, length, u64_max,
  Expected, value, unexpected,
}
use low_latency_event_engine.Event.{EventView, PublishResult}
use low_latency_event_engine.Ring.Ops.{AcquireError}

-- The events that wait, oldest first; whether the consumer holds the oldest; whether publication is
-- closed; and how many events have been published over the ring's life.
pub record Queue : Type 0 where
  pub items : List EventView
  pub held : Bool
  pub is_closed : Bool
  pub published : ℕ

module _ (count capacity : ℕ) where
  unfoldable pub publish : Queue → EventView → PublishResult × Queue
  publish q event =
      if q.is_closed
      then (PublishResult.closed, q)
      else if ltb capacity (length event.payload)
      then (PublishResult.payload_too_large, q)
      else if q.published == u64_max
      then (PublishResult.closed, q)
      else if length q.items == count
      then (PublishResult.full, q)
      else (
        PublishResult.ok,
        record q { items = q.items ++ (event ∷ []); published = q.published + 1 },
      )

unfoldable pub acquire : Queue → Expected EventView AcquireError × Queue
acquire q = if q.held then (unexpected AcquireError.already_acquired, q) else elim q.items [
  | [] ↦ (unexpected (if q.is_closed then AcquireError.closed else AcquireError.empty), q)
  | x ∷ rest ↦ (value x, record q { held = true })
]

abbrev pub drop_first : List EventView → List EventView
drop_first [] = []
drop_first (x ∷ rest) = rest

unfoldable pub release : Queue → Bool × Queue
release q =
    if q.held then (true, record q { items = drop_first q.items; held = false }) else (false, q)

unfoldable pub close : Queue → Queue
close q = record q { is_closed = true }
