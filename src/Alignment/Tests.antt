-- ===== src/Alignment/Tests.antt =====
-- `align_up` at concrete sizes.
use low_latency_event_engine.Base.{◌≡◌, ◌-◌, ◌^◌, refl, arith}
use low_latency_event_engine.Alignment.{align_up}
use low_latency_event_engine.Alignment.Laws.{align_up-IsRoundedUp}

-- Close to the end of `std::size_t` the sum wraps, and the result is right.
align_up-IsRoundedUp_example : align_up (2 ^ 64 - 5) 4 ≡ 2 ^ 64 - 4
align_up-IsRoundedUp_example =
    align_up-IsRoundedUp 2 (2 ^ 64 - 5) (2 ^ 64 - 4) (omega arith) (omega arith)
      (record { multiple = refl; above = omega arith; near = omega arith })
