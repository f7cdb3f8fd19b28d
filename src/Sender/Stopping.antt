-- ===== src/Sender/Stopping.antt =====
-- How `Sender::run` of src/sender/sender.cpp ends.
use low_latency_event_engine.Base.{
  Bool, false, ◌≡◌, inl, inr, refl, arith, true, ◌||◌, Bool-cases, List, [], ◌∷◌, ◌++◌, replicate,
}
use low_latency_event_engine.Ring.Layout.{Memory}
use low_latency_event_engine.Sender.{Sender, Running, Turn, Next-cases, turn, run_turns, run}

-- The loop stops at a turn of itself, or at the one that sees the stop request.
run_turns-returns :
    (state : Running) (before : List Turn) (t : Turn) (behind : List Turn)
    → t.stop ≡ true
    → (run_turns state (before ++ (t ∷ behind))).0 ≡ true
unfolding run_turns
run_turns-returns state [] t behind stop = ground (arith, stop)
run_turns-returns state (u ∷ before) t behind stop =
    elim (Bool-cases (state.sender.stop_requested || u.stop)) [
      | inl stopped ↦ rw stopped refl
      | inr go ↦ rw go (elim (Next-cases (turn state u).0) [
        | inl ends ↦ rw ends refl
        | inr goes ↦ rw goes (run_turns-returns (turn state u).1 before t behind stop)
      ])
    ]

-- The outcome of a run that is stopped where it is: one that has returned stays as it is, and one that
-- has not returns with nothing changed but the stop flag.
abbrev pub stopped_at : Bool × Running → Bool × Running
stopped_at (true, state) = (true, state)
stopped_at (false, state) =
    (true, record state { sender = record state.sender { stop_requested = true } })

run_turns-stopped_at :
    (state : Running) (before : List Turn) (t : Turn) (behind : List Turn)
    → t.stop ≡ true
    → run_turns state (before ++ (t ∷ behind)) ≡ stopped_at (run_turns state before)
unfolding run_turns
run_turns-stopped_at state [] t behind stop = ground (arith, stop)
run_turns-stopped_at state (u ∷ before) t behind stop =
    elim (Bool-cases (state.sender.stop_requested || u.stop)) [
      | inl stopped ↦ rw stopped refl
      | inr go ↦ rw go (elim (Next-cases (turn state u).0) [
        | inl ends ↦ rw ends refl
        | inr goes ↦ rw goes (run_turns-stopped_at (turn state u).1 before t behind stop)
      ])
    ]

-- `run` returns by the turn that sees a stop request at the latest, whatever came before it, and what
-- it leaves then is what the turns before have left, but for the stop flag: at the turn that sees the
-- request and at those behind it nothing is sent, no event is taken and nothing is counted.
pub run-returns :
    (s : Sender) (m : Memory) (before : List Turn) (t : Turn) (behind : List Turn)
    → t.stop ≡ true
    → ((run s m (before ++ (t ∷ behind))).0 ≡ true)
      × (run s m (before ++ (t ∷ behind)) ≡ stopped_at (run s m before))
unfolding run
run-returns s m before t behind stop =
    let state : Running = record {
      sender = s;
      memory = m;
      output = replicate s.config.max_datagram_bytes 0;
      sent = [];
    } in
    (run_turns-returns state before t behind stop, run_turns-stopped_at state before t behind stop)
