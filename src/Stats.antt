-- ===== src/Stats.antt =====
-- include/lle/stats.hpp.
use low_latency_event_engine.Base.{ℕ, add64}

-- `EngineStats`.
pub record EngineStats : Type 0 where
  pub events_in : ℕ
  pub events_out : ℕ
  pub packets_sent : ℕ
  pub packets_received : ℕ
  pub gaps_detected : ℕ
  pub packets_missed : ℕ
  pub duplicate_or_old_packets : ℕ
  pub wrong_session_packets : ℕ
  pub nack_sent : ℕ
  pub retransmitted : ℕ
  pub recovered : ℕ
  pub unrecovered : ℕ
  pub ingress_full : ℕ
  pub malformed_packets : ℕ
  pub events_dropped : ℕ
  pub encode_errors : ℕ
  pub send_errors : ℕ
  pub ingress_errors : ℕ
  pub receive_errors : ℕ
  pub egress_full : ℕ
  pub egress_errors : ℕ

abbrev pub no_stats : EngineStats
no_stats = record {
  events_in = 0;
  events_out = 0;
  packets_sent = 0;
  packets_received = 0;
  gaps_detected = 0;
  packets_missed = 0;
  duplicate_or_old_packets = 0;
  wrong_session_packets = 0;
  nack_sent = 0;
  retransmitted = 0;
  recovered = 0;
  unrecovered = 0;
  ingress_full = 0;
  malformed_packets = 0;
  events_dropped = 0;
  encode_errors = 0;
  send_errors = 0;
  ingress_errors = 0;
  receive_errors = 0;
  egress_full = 0;
  egress_errors = 0;
}

-- `++` on a counter.
abbrev pub incremented : ℕ → ℕ
incremented n = add64 n 1
