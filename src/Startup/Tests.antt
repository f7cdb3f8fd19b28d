-- ===== src/Startup/Tests.antt =====
-- The loop over `getrandom` at concrete replies.
use low_latency_event_engine.Base.{◌≡◌, refl, arith, [], ◌∷◌, ◌++◌, none, some, inr}
use low_latency_event_engine.Transport.{Errno}
use low_latency_event_engine.Startup.{draw_failed, drawn, draw_id}
use low_latency_event_engine.Startup.Identity.{draw_id-returns}

abbrev linux : Errno
linux = record { eintr = 4; eio = 5 }

draw_id-returns_example :
    (draw_id linux 4 (draw_failed 4 ∷ drawn 4 0 ∷ []) ≡ none)
    × (draw_id linux 4 ((draw_failed 4 ∷ drawn 4 0 ∷ []) ++ drawn 4 77 ∷ []) ≡ some (some 77))
draw_id-returns_example =
    draw_id-returns linux 4 (draw_failed 4 ∷ drawn 4 0 ∷ []) (drawn 4 77) (some 77) []
      (refl, ((refl, refl), tt)) (inr (refl, omega arith, refl))
