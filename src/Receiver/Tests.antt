-- ===== src/Receiver/Tests.antt =====
-- The receiver at concrete turns.
use low_latency_event_engine.Base.{◌≡◌, inl, refl, arith, true, false, List, [], ◌∷◌, ◌++◌, All}
use low_latency_event_engine.Protocol.Types.{DecodedDataView}
use low_latency_event_engine.Protocol.Wire.{IsSendable, HasWidths}
use low_latency_event_engine.Gap.Accounting.{new_detector-IsValid}
use low_latency_event_engine.Ring.Layout.{RingState, state_value}
use low_latency_event_engine.Ring.Queue
use low_latency_event_engine.Ring.Linked.{IsLinked, queue_of}
use low_latency_event_engine.Ring.Samples.{handle, ring, ring-IsLinked}
use low_latency_event_engine.Transport.{delivered}
use low_latency_event_engine.Receiver.{Turn, next_published, turn, run}
use low_latency_event_engine.Receiver.Accounting.{IsBalanced}
use low_latency_event_engine.Receiver.Totals.{IsTurn, run-IsBalanced}
use low_latency_event_engine.Receiver.Stopping.{run-stops}
use low_latency_event_engine.Receiver.Forwarding.{arrival, turn-publishes}
use low_latency_event_engine.Receiver.Samples.{linux, address, undisturbed, receiver, waiting}

abbrev view : DecodedDataView
view = record {
  session_id = 9;
  packet_sequence = 3;
  event = record { stream_id = 7; sequence = 5; source_timestamp_ns = 6; payload = 1 ∷ 2 ∷ 3 ∷ [] };
}

view-IsSendable : IsSendable view
view-IsSendable = omega arith

view-HasWidths : HasWidths view
view-HasWidths = omega arith

abbrev stopping : Turn
stopping = record (arrival 1 view address undisturbed) { stop = true }

abbrev broken : Turn
broken = record (arrival 1 view address undisturbed) {
  recv = delivered (0xff ∷ 0xff ∷ []) false address;
}

abbrev turns : List Turn
turns = arrival 1 view address undisturbed ∷ broken ∷ arrival 1 view address undisturbed ∷ []

arrival-IsTurn : IsTurn (arrival 1 view address undisturbed)
arrival-IsTurn = omega arith

turns-IsTurn : All IsTurn turns
turns-IsTurn = (arrival-IsTurn, (omega arith, (arrival-IsTurn, tt)))

run-IsBalanced_example :
    let final = (run linux receiver ring turns).1.receiver in
    IsBalanced 0 0 final.stats final.gap_detector
run-IsBalanced_example = run-IsBalanced linux receiver ring turns turns-IsTurn refl refl

run-stops_example :
    let (over, state) = run linux receiver ring (turns ++ (stopping ∷ [])) in
    (over ≡ true) × (state.memory.header.preamble.state ≡ state_value RingState.closed)
run-stops_example = run-stops linux receiver ring turns stopping [] refl refl

turn-publishes_example :
    let (next, after) = turn linux waiting (arrival 1 view address undisturbed) in
    let (result, q) = Queue.publish 2 4 (queue_of (handle true) (handle false) ring) view.event in
    (next ≡ next_published result)
    × (queue_of after.receiver.egress (handle false) after.memory ≡ q)
    × IsLinked after.receiver.egress (handle false) after.memory
    × (after.receiver.gap_detector ≡ record { active_session = 9; last_sequence = 3 })
turn-publishes_example =
    turn-publishes linux waiting (handle false) view address undisturbed 1 (omega arith)
      view-IsSendable view-HasWidths refl new_detector-IsValid (inl refl) ring-IsLinked
