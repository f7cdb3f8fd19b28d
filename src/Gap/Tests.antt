-- ===== src/Gap/Tests.antt =====
-- The gap detector at concrete packets.
use low_latency_event_engine.Base.{ℕ, ◌<◌, ◌≤◌, ◌≡◌, ◌≢◌, ◌⊎◌, inl, List, [], ◌∷◌, refl, arith, All}
use low_latency_event_engine.Gap.{PacketStatus, GapDetector, new_detector, accept, check}
use low_latency_event_engine.Gap.Accounting.{
  PacketId, IsIdentity, IsValid, IsAccepted, refused, step, check_lem, check_all, named_in, up_to,
  named_in-eq-up_to,
}

abbrev packet : ℕ → PacketId
packet n = record { session_id = 5; packet_sequence = n }

-- 2 and 3 are lost, and 4 is repeated.
abbrev stream : List PacketId
stream = packet 1 ∷ packet 4 ∷ packet 4 ∷ record { session_id = 6; packet_sequence = 9 } ∷ []

stream-IsIdentity : All IsIdentity stream
stream-IsIdentity = omega arith

reports_gap :
    (check (record { active_session = 5; last_sequence = 1 }) 5 4).0
    ≡ record { status = PacketStatus.accepted; gap = 2; first_missing = 2; last_missing = 3 }
unfolding check accept
reports_gap = refl

named_in-eq-up_to_example : named_in 3 new_detector stream ≡ up_to 3 4
unfolding check_all check accept
named_in-eq-up_to_example = named_in-eq-up_to 3 stream stream-IsIdentity

-- A detector of session 5 that has seen up to 1.
abbrev detector : GapDetector
detector = record { active_session = 5; last_sequence = 1 }

detector-IsValid : IsValid detector
detector-IsValid = record { fresh = inl (omega arith); width = omega arith }

check_lem_example :
    let (r, d) = step detector (packet 4) in
    (((◌≡◌ {A = ℕ} 5 0) ⊎ ((◌≡◌ {A = ℕ} 5 5) × (1 < 4)))
      × IsAccepted 1 4 r
      × (d ≡ record { active_session = 5; last_sequence = 4 }))
    ⊎ (((◌≢◌ {A = ℕ} 5 0)
          × (◌≢◌ {A = ℕ} 5 5)
          × (r ≡ refused PacketStatus.wrong_session)
          × (d ≡ detector))
        ⊎ ((◌≢◌ {A = ℕ} 5 0)
            × (◌≡◌ {A = ℕ} 5 5)
            × (4 ≤ 1)
            × (r ≡ refused PacketStatus.duplicate_or_old)
            × (d ≡ detector)))
check_lem_example = check_lem detector (packet 4) detector-IsValid (omega arith)
