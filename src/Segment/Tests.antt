-- ===== src/Segment/Tests.antt =====
-- Segments at concrete replies.
use low_latency_event_engine.Base.{◌≡◌, [], ◌∷◌, some, true}
use low_latency_event_engine.Transport.{failed, returned}
use low_latency_event_engine.Os.Ledger.{closes}
use low_latency_event_engine.Segment.{Segment, SegmentErrno, Name, Replies, create_shm}
use low_latency_event_engine.Segment.Lifetime.{attach_shm, closing, unlinking, moving, live}
use low_latency_event_engine.Segment.Closing.{live-closes}
use low_latency_event_engine.Segment.Resources.{
  IsClean, IsCleanAttachment, create_shm-IsClean, attach_shm-IsClean,
}

abbrev linux : SegmentErrno
linux = record { einval = 22; eperm = 1; enoent = 2 }

-- Everything succeeds but `mmap`.
abbrev unmappable : Replies
unmappable = record {
  shm_open = returned 5;
  ftruncate = returned 0;
  fstat = returned 320;
  mmap = failed 12;
  shm_unlink = returned 0;
}

-- "/a".
abbrev name : Name
name = 47 ∷ 97 ∷ []

create_shm-IsClean_example : IsClean name (create_shm linux unmappable name 320)
create_shm-IsClean_example = create_shm-IsClean linux unmappable name 320

attach_shm-IsClean_example : IsCleanAttachment (attach_shm linux unmappable name)
attach_shm-IsClean_example = attach_shm-IsClean linux unmappable name

abbrev segment : Segment
segment = record {
  name = name;
  descriptor = some 5;
  address = some 4096;
  size = 320;
  owner = true;
  linked = true;
}

live-closes_example :
    closes (
      live
        (returned 0)
        (returned 0)
        (moving (returned 0) (returned 0)
          ∷ closing (failed 22) (returned 0)
          ∷ unlinking linux (returned 0)
          ∷ [])
        segment)
    ≡ 5 ∷ []
live-closes_example =
    live-closes (returned 0) (returned 0)
      (moving (returned 0) (returned 0)
        ∷ closing (failed 22) (returned 0)
        ∷ unlinking linux (returned 0)
        ∷ [])
      segment
