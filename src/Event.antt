-- ===== src/Event.antt =====
-- include/lle/event.hpp: events as producers and consumers see them.
use low_latency_event_engine.Base.{ℕ, List}

-- `DeliveryMode`.
pub data DeliveryMode : Type 0 where
  best_effort reliable_ordered : DeliveryMode

-- `PublishResult`.
pub data PublishResult : Type 0 where
  ok full payload_too_large closed : PublishResult

-- `EventView`: a `uint32_t`, two `uint64_t`, and the bytes that the payload span shows.
pub record EventView : Type 0 where
  pub stream_id : ℕ
  pub sequence : ℕ
  pub source_timestamp_ns : ℕ
  pub payload : List ℕ
