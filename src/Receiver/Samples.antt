-- ===== src/Receiver/Samples.antt =====
-- A receiver that has not received anything yet.
use low_latency_event_engine.Base.{some, true, false, replicate}
use low_latency_event_engine.Gap.{new_detector}
use low_latency_event_engine.Ring.Layout.{Memory}
use low_latency_event_engine.Ring.Samples.{handle, ring}
use low_latency_event_engine.Transport.{SockaddrIn, Errno}
use low_latency_event_engine.Config.{default_receiver_config}
use low_latency_event_engine.Segment.{no_segment}
use low_latency_event_engine.Stats.{no_stats}
use low_latency_event_engine.Receiver.{Receiver, Running}

abbrev pub linux : Errno
linux = record { eintr = 4; eio = 5 }

abbrev pub address : SockaddrIn
address = record { is_inet = true; port = 9000; address = 0x7f00_0001 }

abbrev pub undisturbed : Memory → Memory
undisturbed m = m

abbrev pub receiver : Receiver
receiver = record {
  config = default_receiver_config;
  segment = no_segment;
  egress = handle true;
  udp = record { socket_fd = some 4; local_port = 9000 };
  stop_requested = false;
  stats = no_stats;
  gap_detector = new_detector;
}

abbrev pub waiting : Running
waiting = record { receiver = receiver; memory = ring; packet = replicate 1416 0 }
