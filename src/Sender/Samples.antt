-- ===== src/Sender/Samples.antt =====
-- A sender with two destinations, and a ring with one event for it.
use low_latency_event_engine.Base.{
  ℕ, some, zero, suc, ◌≡◌, refl, ap, ◌∙◌, arith, true, false, [], ◌∷◌, replicate,
}
use low_latency_event_engine.Event.{EventView}
use low_latency_event_engine.Protocol.Wire.{IsSendable, HasWidths}
use low_latency_event_engine.Ring.Layout.{Memory}
use low_latency_event_engine.Ring.Setup.{SpscRing}
use low_latency_event_engine.Ring.Ops.{try_publish}
use low_latency_event_engine.Ring.Queue
use low_latency_event_engine.Ring.Linked.{IsLinked, queue_of}
use low_latency_event_engine.Ring.Samples.{handle, ring, ring-IsLinked}
use low_latency_event_engine.Ring.Refine.Publish.{try_publish_refines}
use low_latency_event_engine.Transport.{Reply, failed, returned}
use low_latency_event_engine.Config.{default_sender_config}
use low_latency_event_engine.Segment.{no_segment}
use low_latency_event_engine.Stats.{no_stats}
use low_latency_event_engine.Sender.{Sender, Running, Turn}
use low_latency_event_engine.Sender.Forwarding.{outgoing}

abbrev pub event : EventView
event = record { stream_id = 7; sequence = 5; source_timestamp_ns = 6; payload = 1 ∷ 2 ∷ 3 ∷ [] }

abbrev pub sender : Sender
sender = record {
  config = record default_sender_config { max_datagram_bytes = 100 };
  segment = no_segment;
  ingress = handle false;
  udp = record { socket_fd = some 3 };
  destinations =
      record { is_inet = true; port = 9000; address = 1 }
      ∷ record { is_inet = true; port = 9001; address = 2 }
      ∷ [];
  session_id = 9;
  packet_sequence = 1;
  stop_requested = false;
  stats = no_stats;
}

abbrev pub producer : SpscRing
producer = (try_publish (handle true) ring event).1

-- The ring behind the producer's publication.
abbrev pub filled : Memory
filled = (try_publish (handle true) ring event).2

pub filled-IsLinked : IsLinked producer (handle false) filled
filled-IsLinked = (try_publish_refines event ring-IsLinked).2

pub filled_items : (queue_of producer (handle false) filled).items ≡ event ∷ []
filled_items = ap (λ q. q.items) ((try_publish_refines event ring-IsLinked).1 ∙ published)
  where
    published :
        (Queue.publish 2 4 (queue_of (handle true) (handle false) ring) event).1
        ≡ record { items = event ∷ []; held = false; is_closed = false; published = 1 }
    published = unfold Queue.publish in refl

-- The first destination is reached, the second is not.
abbrev pub sending : Turn
sending = record { stop = false; peer = λ _. filled; replies = reply }
  where
    reply : ℕ → Reply
    reply zero = returned 48
    reply (suc i) = failed 101

pub event-IsSendable : IsSendable (outgoing sender event)
event-IsSendable = omega arith

pub event-HasWidths : HasWidths (outgoing sender event)
event-HasWidths = omega arith

abbrev pub waiting : Running
waiting = record { sender = sender; memory = ring; output = replicate 100 0; sent = [] }
