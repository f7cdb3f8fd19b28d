-- ===== src/Config.antt =====
-- include/lle/config.hpp and include/lle/init_error.hpp.
use low_latency_event_engine.Base.{ℕ, ℤ, pos, negsuc, Bool, true, false, List, []}
use low_latency_event_engine.Event.{DeliveryMode}
use low_latency_event_engine.Os.{Name}
use low_latency_event_engine.Protocol.Types.{max_packet_bytes}
use low_latency_event_engine.Ring.Setup.{RingConfig}

-- `Endpoint`.
pub record Endpoint : Type 0 where
  pub address : Name
  pub port : ℕ

-- `SenderConfig`.
pub record SenderConfig : Type 0 where
  pub ingress_shm_name : Name
  pub receivers : List Endpoint
  pub max_datagram_bytes : ℕ
  pub retransmit_window_packets : ℕ
  pub delivery_mode : DeliveryMode
  pub cpu : ℤ
  pub busy_spin_ingress : Bool

-- A `SenderConfig` with its default members.
abbrev pub default_sender_config : SenderConfig
default_sender_config = record {
  ingress_shm_name = [];
  receivers = [];
  max_datagram_bytes = max_packet_bytes;
  retransmit_window_packets = 65536;
  delivery_mode = DeliveryMode.best_effort;
  cpu = negsuc 0;
  busy_spin_ingress = true;
}

-- `ReceiverConfig`.
pub record ReceiverConfig : Type 0 where
  pub listen : Endpoint
  pub nack_target : Endpoint
  pub egress_shm_name : Name
  pub egress_ring : RingConfig
  pub delivery_mode : DeliveryMode
  pub reorder_window_packets : ℕ
  pub recovery_timeout_us : ℕ
  pub cpu : ℤ
  pub busy_poll_us : ℤ

abbrev pub no_endpoint : Endpoint
no_endpoint = record { address = []; port = 0 }

-- A `ReceiverConfig` with its default members.
abbrev pub default_receiver_config : ReceiverConfig
default_receiver_config = record {
  listen = no_endpoint;
  nack_target = no_endpoint;
  egress_shm_name = [];
  egress_ring = record { slot_count = 0; slot_payload_capacity = 0 };
  delivery_mode = DeliveryMode.best_effort;
  reorder_window_packets = 4096;
  recovery_timeout_us = 100;
  cpu = negsuc 0;
  busy_poll_us = pos 0;
}

-- `InitError`.
pub data InitError : Type 0 where
  invalid_config shared_memory ring_error address_resolution socket_error session_id_error :
      InitError

-- `DeliveryMode::BestEffort` is the only mode of this step.
abbrev pub is_best_effort : DeliveryMode → Bool
is_best_effort DeliveryMode.best_effort = true
is_best_effort DeliveryMode.reliable_ordered = false
