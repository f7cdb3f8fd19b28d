-- ===== src/Sender/Startup/Tests.antt =====
-- A start of a sender with one destination whose `getrandom` is interrupted once.
use low_latency_event_engine.Base.{
  ℕ, ◌≡◌, refl, Bool, true, false, Expected, value, unexpected, [], ◌∷◌, Option, none, some,
}
use low_latency_event_engine.Config.{SenderConfig, default_sender_config, InitError}
use low_latency_event_engine.Os.{Name, returned}
use low_latency_event_engine.Ring.Samples.{ring}
use low_latency_event_engine.Startup.{Platform, Started, draw_failed, drawn, behind, draw_id, bytes}
use low_latency_event_engine.Sender.{Sender}
use low_latency_event_engine.Sender.Startup.{
  SenderReplies, move_engine, initialize, is_config_invalid, parse_destinations, with_destinations,
  with_segment, with_ring, with_socket, with_session, give, new_sender,
}
use low_latency_event_engine.Sender.Startup.Lifetime.{LivesTidy, initialize-LivesTidy}
use low_latency_event_engine.Sender.Samples.{sending}
use low_latency_event_engine.Sender.Startup.Fresh.{IsFresh, Succeeds, initialize-IsFresh}
use low_latency_event_engine.Ring.Setup.{
  attach, attach_layout, move_handle, invalid_memory, validate_state, invalid_layout,
  required_bytes, slot_stride_of, new_handle,
}
use low_latency_event_engine.Segment.{is_shm_name_valid}
use low_latency_event_engine.Segment.Lifetime.{
  attach_shm, attach_opened, attach_inspected, attach_mapped,
}
use low_latency_event_engine.Transport.Sockets.{ipv4, open_sender}
use low_latency_event_engine.Alignment.{align_up}

abbrev linux : Platform
linux = record {
  inet_pton = read;
  errno = record { eintr = 4; eio = 5 };
  segment_errno = record { einval = 22; eperm = 1; enoent = 2 };
}
  where
    read : Name → Option ℕ
    read [] = none
    read (c ∷ cs) = some 0x7f00_0001

-- "/a", to one endpoint.
abbrev config : SenderConfig
config = record default_sender_config {
  ingress_shm_name = 47 ∷ 97 ∷ [];
  receivers = record { address = 49 ∷ []; port = 9000 } ∷ [];
}

abbrev replies : SenderReplies
replies = record {
  segment = record {
    shm_open = returned 5;
    ftruncate = returned 0;
    fstat = returned 320;
    mmap = returned 4096;
    shm_unlink = returned 0;
  };
  socket = returned 6;
  draws = draw_failed 4 ∷ drawn 4 77 ∷ [];
  munmap = returned 0;
  close = returned 0;
}

-- The start succeeds, so that the witnesses are about a sender.
abbrev is_success : Started (Expected Sender InitError) → Bool
is_success none = false
is_success (some (unexpected e, calls)) = false
is_success (some (value s, calls)) = true

started : is_success (initialize linux replies ring config) ≡ true
unfolding initialize is_config_invalid parse_destinations ipv4 with_destinations with_segment
    with_ring with_socket with_session behind draw_id bytes attach_shm attach_opened
    attach_inspected attach_mapped is_shm_name_valid attach attach_layout open_sender give
    move_engine move_handle new_sender invalid_memory validate_state invalid_layout required_bytes
    slot_stride_of new_handle align_up
started = refl

initialize-LivesTidy_example :
    LivesTidy
      (returned 0)
      (returned 0)
      replies
      ring
      (sending ∷ [])
      (initialize linux replies ring config)
initialize-LivesTidy_example =
    initialize-LivesTidy (returned 0) (returned 0) ring (sending ∷ []) linux replies ring config

initialize-IsFresh_example :
    Succeeds (IsFresh linux ring config) (initialize linux replies ring config)
initialize-IsFresh_example = initialize-IsFresh linux replies ring config
