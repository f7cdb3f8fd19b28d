-- ===== src/Engine/Tests.antt =====
-- One event from an ingress ring to an egress ring.
use low_latency_event_engine.Base.{◌≡◌, inl, refl, arith, [], length, All, drop, false}
use low_latency_event_engine.Gap.Accounting.{new_detector-IsValid}
use low_latency_event_engine.Ring.Samples.{handle, ring-IsLinked}
use low_latency_event_engine.Sender
use low_latency_event_engine.Sender.Forwarding.{outgoing}
use low_latency_event_engine.Sender.Samples.{
  event, sender, producer, filled-IsLinked, filled_items, sending, event-IsSendable,
  event-HasWidths,
}
use low_latency_event_engine.Sender.Samples as Sending
use low_latency_event_engine.Receiver.Samples.{linux, address, undisturbed}
use low_latency_event_engine.Receiver.Samples as Receiving
use low_latency_event_engine.Engine.{Publishes, Offers, IsReady, crossing}

offer : Offers producer Sending.waiting sending event []
offer = record {
  linked = filled-IsLinked;
  oldest = filled_items;
  idle = refl;
  sendable = event-IsSendable;
  widths = event-HasWidths;
  room = omega arith;
  more = omega arith;
}

waiting-IsReady :
    IsReady linux Receiving.waiting (handle false) 1 address undisturbed (outgoing sender event)
waiting-IsReady = record {
  some_ready = omega arith;
  room = refl;
  valid = new_detector-IsValid;
  is_new = inl refl;
  linked = ring-IsLinked;
}

crossing_example :
    let (_, after) = Sender.turn Sending.waiting sending in
    let new = drop 0 after.sent in
    (length new ≡ 2)
    × All (Publishes linux Receiving.waiting (handle false) 1 address undisturbed event) new
crossing_example =
    crossing producer Sending.waiting sending event [] linux Receiving.waiting (handle false) 1
      address undisturbed offer waiting-IsReady
