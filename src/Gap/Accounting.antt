-- ===== src/Gap/Accounting.antt =====
-- Every packet sequence of a session is accounted for exactly once by
-- src/reliability/gap_detector.cpp.
use low_latency_event_engine.Base.{
  ℕ, ◌+◌, ◌≤◌, ◌<◌, ◌^◌, ◌≡◌, ◌≢◌, ◌⊎◌, inr, List, [], ◌∷◌, ◌&&◌, ◌==◌, ltb, leb, if◌then◌else◌,
  refl, arith, All,
}
use low_latency_event_engine.Gap.{
  PacketStatus, CheckResult, GapDetector, new_detector, accept, check,
}

-- The identity of a decoded packet.
pub record PacketId : Type 0 where
  pub session_id : ℕ
  pub packet_sequence : ℕ

-- What the decoder validates before `check` is called.
pub record IsIdentity (p : PacketId) : Type 0 where
  pub session : p.session_id ≢ 0
  pub nonzero : p.packet_sequence ≢ 0
  pub width : p.packet_sequence < 2 ^ 64

abbrev pub step : GapDetector → PacketId → CheckResult × GapDetector
step d p = check d p.session_id p.packet_sequence

-- How often a result names the number `n`: as an accepted packet, or in its missing range.
abbrev accepted_as : ℕ → ℕ → PacketStatus → ℕ
accepted_as n sequence PacketStatus.accepted = if sequence == n then 1 else 0
accepted_as n sequence PacketStatus.duplicate_or_old = 0
accepted_as n sequence PacketStatus.wrong_session = 0

abbrev pub named : ℕ → PacketId → CheckResult → ℕ
named n p r =
    accepted_as n p.packet_sequence r.status
    + (if ltb 0 r.gap && (leb r.first_missing n && leb n r.last_missing) then 1 else 0)

-- The detector behind a stream of packets, and how often its results name `n`.
unfoldable pub check_all : GapDetector → List PacketId → GapDetector
check_all d [] = d
check_all d (p ∷ ps) = check_all (step d p).1 ps

unfoldable pub named_in : ℕ → GapDetector → List PacketId → ℕ
named_in n d [] = 0
named_in n d (p ∷ ps) = named n p (step d p).0 + named_in n (step d p).1 ps

-- 1 for the numbers from 1 to `last`.
abbrev pub up_to : ℕ → ℕ → ℕ
up_to n last = if leb 1 n && leb n last then 1 else 0

pub record IsValid (d : GapDetector) : Type 0 where
  pub fresh : (d.active_session ≢ 0) ⊎ (d.last_sequence ≡ 0)
  pub width : d.last_sequence < 2 ^ 64

pub new_detector-IsValid : IsValid new_detector
new_detector-IsValid = record { fresh = inr refl; width = omega arith }

pub check-IsValid :
    (d : GapDetector) (p : PacketId) → IsValid d → IsIdentity p → IsValid (step d p).1
unfolding check accept
check-IsValid d p v i = ground arith

named-step :
    (n : ℕ) (d : GapDetector) (p : PacketId)
    → IsValid d
    → IsIdentity p
    → named n p (step d p).0 + up_to n d.last_sequence ≡ up_to n (step d p).1.last_sequence
unfolding check accept
named-step n d p v i = ground arith

named_in-IsValid :
    (n : ℕ) (d : GapDetector) (ps : List PacketId)
    → IsValid d
    → All IsIdentity ps
    → named_in n d ps + up_to n d.last_sequence ≡ up_to n (check_all d ps).last_sequence
unfolding named_in check_all
named_in-IsValid n d [] v is = omega arith
named_in-IsValid n d (p ∷ ps) v is = omega (
  arith,
  named-step n d p v is.0,
  named_in-IsValid n (step d p).1 ps (check-IsValid d p v is.0) is.1,
)

-- Over any stream of packets with nonzero identities, the results of a new detector name each
-- sequence from 1 to the last accepted one exactly once, as an accepted packet or in exactly one
-- missing range, and no other number at all.
pub named_in-eq-up_to :
    (n : ℕ) (ps : List PacketId)
    → All IsIdentity ps
    → named_in n new_detector ps ≡ up_to n (check_all new_detector ps).last_sequence
named_in-eq-up_to n ps is =
    ground (arith, named_in-IsValid n new_detector ps new_detector-IsValid is)

-- The result for an accepted packet that is `gap` sequences behind the last one: the range of the
-- missing ones, or zeros.
pub record IsAccepted (last sequence : ℕ) (r : CheckResult) : Type 0 where
  pub status : r.status ≡ PacketStatus.accepted
  pub gap : last + r.gap + 1 ≡ sequence
  pub range :
      ((r.gap ≡ 0) × (r.first_missing ≡ 0) × (r.last_missing ≡ 0))
      ⊎ ((0 < r.gap) × (r.first_missing ≡ last + 1) × (r.last_missing + 1 ≡ sequence))

abbrev pub refused : PacketStatus → CheckResult
refused s = record { status = s; gap = 0; first_missing = 0; last_missing = 0 }

-- `check` on a valid detector and identity has three outcomes. Either no session is active yet or the
-- packet is of the active session and newer than all before: it is accepted and becomes the last one,
-- the gap is the number of sequences that it skips, and the range is exactly those, or zeros if there
-- are none. Or the packet is of another session: it is `WrongSession`, whatever its sequence. Or it is
-- of the active session and not newer: it is `DuplicateOrOld`. In the last two cases the gap and the
-- range are zero and the detector stays as it was.
pub check_lem :
    (d : GapDetector) (p : PacketId)
    → IsValid d
    → IsIdentity p
    → let (r, d') = step d p in
      (((d.active_session ≡ 0)
          ⊎ ((p.session_id ≡ d.active_session) × (d.last_sequence < p.packet_sequence)))
        × IsAccepted d.last_sequence p.packet_sequence r
        × (d' ≡ record { active_session = p.session_id; last_sequence = p.packet_sequence }))
      ⊎ (((d.active_session ≢ 0)
            × (p.session_id ≢ d.active_session)
            × (r ≡ refused PacketStatus.wrong_session)
            × (d' ≡ d))
          ⊎ ((d.active_session ≢ 0)
              × (p.session_id ≡ d.active_session)
              × (p.packet_sequence ≤ d.last_sequence)
              × (r ≡ refused PacketStatus.duplicate_or_old)
              × (d' ≡ d)))
unfolding check accept
check_lem d p v i = ground arith
