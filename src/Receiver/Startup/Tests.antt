-- ===== src/Receiver/Startup/Tests.antt =====
-- A start of a receiver for a ring of two slots whose ring identity is drawn twice.
use low_latency_event_engine.Base.{
  ℕ, ◌≡◌, refl, arith, Bool, true, false, [], ◌∷◌, Option, none, some, value, unexpected, replicate,
}
use low_latency_event_engine.Alignment.{align_up}
use low_latency_event_engine.Config.{ReceiverConfig, default_receiver_config}
use low_latency_event_engine.Os.{Name, failed, returned}
use low_latency_event_engine.Protocol.Types.{max_packet_bytes}
use low_latency_event_engine.Ring.Samples.{ring}
use low_latency_event_engine.Ring.Setup as Ring
use low_latency_event_engine.Ring.Setup.{
  required_bytes, slot_stride_of, invalid_memory, new_handle, fill_preamble, construct_slots,
  move_handle,
}
use low_latency_event_engine.Segment.{
  create_shm, create_opened, create_resized, create_mapped, is_shm_name_valid,
}
use low_latency_event_engine.Startup.{Platform, Started, drawn, behind, draw_id, bytes}
use low_latency_event_engine.Transport.{recv_failed}
use low_latency_event_engine.Transport.Sockets.{bind_address, bind_opened, bind_socket, bind_named}
use low_latency_event_engine.Receiver.{Turn, run}
use low_latency_event_engine.Receiver.Samples.{receiver, undisturbed}
use low_latency_event_engine.Receiver.Startup.{
  ReceiverReplies, Result, is_config_invalid, new_receiver, give, with_ring, with_segment,
  with_instance, with_socket, with_address, with_size, initialize,
}
use low_latency_event_engine.Receiver.Startup.Shutdown.{request_stop, move_engine, destroy_engine}
use low_latency_event_engine.Receiver.Startup.Cleanup.{Ending}
use low_latency_event_engine.Receiver.Startup.Lifetime.{LivesSettled, initialize-LivesSettled}
use low_latency_event_engine.Receiver.Startup.Fresh.{Succeeds, initialize-IsServing}
use low_latency_event_engine.Receiver.Startup.Moves.{move_engine-harmless}

abbrev linux : Platform
linux = record {
  inet_pton = read;
  errno = record { eintr = 4; eio = 5 };
  segment_errno = record { einval = 22; eperm = 1; enoent = 2 };
}
  where
    read : Name → Option ℕ
    read [] = none
    read (c ∷ cs) = some 0

-- "/b", listening on all addresses.
abbrev config : ReceiverConfig
config = record default_receiver_config {
  egress_shm_name = 47 ∷ 98 ∷ [];
  egress_ring = record { slot_count = 2; slot_payload_capacity = 4 };
}

abbrev replies : ReceiverReplies
replies = record {
  bind = record { socket = returned 5; bind = returned 0; getsockname = returned 0; port = 9000 };
  draws = drawn 8 0 ∷ drawn 8 7 ∷ [];
  segment = record {
    shm_open = returned 6;
    ftruncate = returned 0;
    fstat = returned 0;
    mmap = returned 4096;
    shm_unlink = returned 0;
  };
  munmap = returned 0;
  close = returned 0;
}

abbrev ending : Ending
ending = record {
  errno = linux.segment_errno;
  shm_unlink = failed 2;
  munmap = returned 0;
  close = returned 0;
}

-- The start succeeds, so that the witnesses are about a receiver.
abbrev is_success : Started Result → Bool
is_success none = false
is_success (some ((unexpected e, m), calls)) = false
is_success (some ((value s, m), calls)) = true

started : is_success (initialize linux replies ring config) ≡ true
unfolding initialize is_config_invalid with_size with_address with_socket with_instance with_segment
    with_ring behind draw_id bytes give new_receiver move_engine request_stop move_handle
    bind_address bind_opened bind_socket bind_named create_shm create_opened create_resized
    create_mapped is_shm_name_valid required_bytes slot_stride_of align_up Ring.initialize
    invalid_memory new_handle fill_preamble
started = refl

abbrev idle : Turn
idle = record {
  stop = false;
  peer = undisturbed;
  poll = record { result = returned 0; readable = false };
  recv = recv_failed 11;
}

initialize-LivesSettled_example :
    LivesSettled ending replies linux.errno (idle ∷ []) (initialize linux replies ring config)
initialize-LivesSettled_example =
    initialize-LivesSettled ending linux.errno (idle ∷ []) linux replies ring config

initialize-IsServing_example : Succeeds config (initialize linux replies ring config)
initialize-IsServing_example =
    initialize-IsServing linux replies ring config
      (record { count_width = omega arith; capacity_width = omega arith }) (λ i h. refl)

move_engine-harmless_example :
    let (moved, rest) = move_engine receiver in
    (moved ≡ receiver)
    × (run linux.errno rest ring (idle ∷ [])
        ≡ (true, record { receiver = rest; memory = ring; packet = replicate max_packet_bytes 0 }))
    × (destroy_engine ending.errno ending.shm_unlink ending.munmap ending.close rest ring
        ≡ (ring, []))
move_engine-harmless_example = move_engine-harmless linux.errno ending receiver ring idle []
