-- ===== src/Sender/Tests.antt =====
-- The sender at concrete turns.
use low_latency_event_engine.Base.{◌≡◌, refl, arith, true, false, [], ◌∷◌}
use low_latency_event_engine.Protocol.Wire.{wire_packet}
use low_latency_event_engine.Ring.Linked.{IsLinked, queue_of}
use low_latency_event_engine.Ring.Samples.{handle, ring}
use low_latency_event_engine.Sender.{Turn, continue_loop, turn, run}
use low_latency_event_engine.Sender.Stopping.{stopped_at, run-returns}
use low_latency_event_engine.Sender.Accounting.{IsSequenced, IsRunning, run-IsRunning}
use low_latency_event_engine.Sender.Forwarding.{outgoing, calls, without_oldest, turn-sends}
use low_latency_event_engine.Sender.Samples.{
  event, sender, producer, filled, filled-IsLinked, filled_items, sending, event-IsSendable,
  event-HasWidths, waiting,
}

sender-IsSequenced : IsSequenced sender
sender-IsSequenced = omega arith

run-IsRunning_example : IsRunning (run sender ring (sending ∷ sending ∷ [])).1
run-IsRunning_example = run-IsRunning sender ring (sending ∷ sending ∷ []) refl sender-IsSequenced

turn-sends_example :
    let (next, after) = turn waiting sending in
    (next ≡ continue_loop)
    × (after.sent ≡ calls (wire_packet (outgoing sender event)) sender.destinations)
    × (after.sender.packet_sequence ≡ 2)
    × (queue_of producer after.sender.ingress after.memory
        ≡ without_oldest [] (queue_of producer (handle false) filled))
    × IsLinked producer after.sender.ingress after.memory
turn-sends_example =
    turn-sends producer waiting sending event [] filled-IsLinked filled_items refl event-IsSendable
      event-HasWidths (omega arith) (omega arith)

abbrev stopping : Turn
stopping = record sending { stop = true }

run-returns_example :
    ((run sender ring (sending ∷ stopping ∷ sending ∷ [])).0 ≡ true)
    × (run sender ring (sending ∷ stopping ∷ sending ∷ [])
        ≡ stopped_at (run sender ring (sending ∷ [])))
run-returns_example = run-returns sender ring (sending ∷ []) stopping (sending ∷ []) refl
