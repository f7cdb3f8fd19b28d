-- ===== src/Gap.antt =====
-- include/lle/gap_detector.hpp and src/reliability/gap_detector.cpp: loss detection and duplicate
-- suppression by the packet sequence of one session.
pub mod Accounting
mod Tests
use low_latency_event_engine.Base.{ℕ, ◌==◌, not, ltb, leb, if◌then◌else◌, add64, sub64}

-- `PacketStatus`.
pub data PacketStatus : Type 0 where
  accepted duplicate_or_old wrong_session : PacketStatus

-- `CheckResult`; both ends of the range are zero when there is no gap.
pub record CheckResult : Type 0 where
  pub status : PacketStatus
  pub gap : ℕ
  pub first_missing : ℕ
  pub last_missing : ℕ

-- `GapDetector`: the session is zero until the first packet selects it.
pub record GapDetector : Type 0 where
  pub active_session : ℕ
  pub last_sequence : ℕ

abbrev pub new_detector : GapDetector
new_detector = record { active_session = 0; last_sequence = 0 }

abbrev pub rejected : PacketStatus → CheckResult
rejected s = record { status = s; gap = 0; first_missing = 0; last_missing = 0 }

-- The part of `check` behind its early returns, with the session already selected.
unfoldable pub accept : GapDetector → ℕ → CheckResult × GapDetector
accept d packet_sequence =
    let gap = sub64 (sub64 packet_sequence d.last_sequence) 1 in
    (
      record {
        status = PacketStatus.accepted;
        gap = gap;
        first_missing = if ltb 0 gap then add64 d.last_sequence 1 else 0;
        last_missing = if ltb 0 gap then sub64 packet_sequence 1 else 0;
      },
      record d { last_sequence = packet_sequence },
    )

-- `GapDetector::check`.
unfoldable pub check : GapDetector → ℕ → ℕ → CheckResult × GapDetector
check d session_id packet_sequence =
    if d.active_session == 0
    then accept (record d { active_session = session_id }) packet_sequence
    else if not (session_id == d.active_session)
    then (rejected PacketStatus.wrong_session, d)
    else if leb packet_sequence d.last_sequence
    then (rejected PacketStatus.duplicate_or_old, d)
    else accept d packet_sequence
