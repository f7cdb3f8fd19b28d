-- ===== src/Segment/Lifetime.antt =====
-- src/shm/segment.cpp: attaching, moving, closing and unlinking.
use low_latency_event_engine.Base.{
  ℕ, Bool, true, false, not, ◌&&◌, ◌==◌, ◌!=◌, if◌then◌else◌, List, [], ◌∷◌, ◌++◌, Option, none,
  some, value, unexpected,
}
use low_latency_event_engine.Transport.{Reply, failed, returned}
use low_latency_event_engine.Segment.{
  Segment, SegmentError, SegmentOperation, failure, SegmentErrno, Call, opened, inspected, mapped,
  unmapped, closed_descriptor, unlinked, Name, Replies, Made, is_shm_name_valid,
}

-- `attach_shm` from `mmap` on.
unfoldable pub attach_mapped : Name → ℕ → ℕ → Reply → Made
attach_mapped name descriptor size (failed errno) = (
  unexpected (failure SegmentOperation.map errno),
  mapped descriptor size (failed errno) ∷ closed_descriptor descriptor ∷ [],
)
attach_mapped name descriptor size (returned address) = (
  value (record {
    name = name;
    descriptor = some descriptor;
    address = some address;
    size = size;
    owner = false;
    linked = true;
  }),
  mapped descriptor size (returned address) ∷ [],
)

-- `attach_shm` from `fstat` on; a size that is not positive reads as zero.
unfoldable pub attach_inspected : SegmentErrno → Replies → Name → ℕ → Reply → Made
attach_inspected errno r name descriptor (failed e) = (
  unexpected (failure SegmentOperation.stat e),
  inspected descriptor ∷ closed_descriptor descriptor ∷ [],
)
attach_inspected errno r name descriptor (returned size) =
    if size == 0
    then (
      unexpected (failure SegmentOperation.validate errno.einval),
      inspected descriptor ∷ closed_descriptor descriptor ∷ [],
    )
    else let (made, calls) = attach_mapped name descriptor size r.mmap in
      (made, inspected descriptor ∷ calls)

-- `attach_shm` from `shm_open` on.
unfoldable pub attach_opened : SegmentErrno → Replies → Name → Reply → Made
attach_opened errno r name (failed e) =
    (unexpected (failure SegmentOperation.open_segment e), opened name (failed e) ∷ [])
attach_opened errno r name (returned descriptor) =
    let (made, calls) = attach_inspected errno r name descriptor r.fstat in
    (made, opened name (returned descriptor) ∷ calls)

-- `attach_shm`.
unfoldable pub attach_shm : SegmentErrno → Replies → Name → Made
attach_shm errno r name =
    if not (is_shm_name_valid name)
    then (unexpected (failure SegmentOperation.validate errno.einval), [])
    else attach_opened errno r name r.shm_open

-- The move constructor: the new segment, and the other as it is left. C++ leaves the name of the other
-- open; here it is empty.
abbrev pub move_segment : Segment → Segment × Segment
move_segment other = (
  other,
  record { name = []; descriptor = none; address = none; size = 0; owner = false; linked = false },
)

-- The first part of `close_shm`: `unmap_error`, zero where there is none.
unfoldable pub unmap_address : Reply → Segment → Option ℕ → ℕ × Segment × List Call
unmap_address munmap s none = (0, s, [])
unmap_address (failed errno) s (some address) =
    (errno, s, unmapped address s.size (failed errno) ∷ [])
unmap_address (returned result) s (some address) =
    (0, record s { address = none; size = 0 }, unmapped address s.size (returned result) ∷ [])

-- The second part of `close_shm`: `close_error`, zero where there is none.
unfoldable pub close_opened : Reply → Segment → Option ℕ → ℕ × Segment × List Call
close_opened close s none = (0, s, [])
close_opened (failed errno) s (some d) =
    (errno, record s { descriptor = none }, closed_descriptor d ∷ [])
close_opened (returned _) s (some d) = (0, record s { descriptor = none }, closed_descriptor d ∷ [])

-- `close_shm`, with what `munmap` and `close` return: `none` is success.
unfoldable pub close_shm : Reply → Reply → Segment → Option SegmentError × Segment × List Call
close_shm munmap close s =
    let (unmap_error, s', calls) = unmap_address munmap s s.address in
    let (close_error, s'', calls') = close_opened close s' s'.descriptor in
    (
      if unmap_error != 0
          then some (failure SegmentOperation.unmap unmap_error)
          else if close_error != 0
          then some (failure SegmentOperation.close_segment close_error)
          else none,
      s'',
      calls ++ calls',
    )

-- `unlink` from `shm_unlink` on.
unfoldable pub unlink_linked : SegmentErrno → Segment → Reply → Option SegmentError × Segment
unlink_linked errno s (returned _) = (none, record s { linked = false })
unlink_linked errno s (failed e) =
    if e == errno.enoent
    then (none, record s { linked = false })
    else (some (failure SegmentOperation.unlink_segment e), s)

-- `unlink`.
unfoldable pub unlink : SegmentErrno → Reply → Segment → Option SegmentError × Segment × List Call
unlink errno shm_unlink s =
    if not s.owner
    then (some (failure SegmentOperation.unlink_segment errno.eperm), s, [])
    else if not s.linked
    then (none, s, [])
    else let (result, s') = unlink_linked errno s shm_unlink in
      (result, s', unlinked s.name shm_unlink ∷ [])

-- `operator=(SharedMemorySegment&&)` from another object: the target, the other, and the calls.
unfoldable pub move_assign : Reply → Reply → Segment → Segment → Segment × Segment × List Call
move_assign munmap close target other =
    let (_, _, calls) = close_shm munmap close target in
    let (moved, rest) = move_segment other in (moved, rest, calls)

-- `~SharedMemorySegment`: it closes, and never unlinks.
unfoldable pub destroy_segment : Reply → Reply → Segment → List Call
destroy_segment munmap close s = let (_, _, calls) = close_shm munmap close s in calls

abbrev is_some : Option ℕ → Bool
is_some none = false
is_some (some a) = true

-- `is_open()`.
abbrev pub is_open : Segment → Bool
is_open s = is_some s.descriptor && is_some s.address

-- What an owner of a segment does with it until it is destroyed: it may be moved to another object,
-- of which the source is destroyed at once.
pub data SegmentOp : Type 0 where
  closing : Reply → Reply → SegmentOp
  unlinking : SegmentErrno → Reply → SegmentOp
  moving : Reply → Reply → SegmentOp

unfoldable pub apply_op : SegmentOp → Segment → Segment × List Call
apply_op (closing munmap close) s = let (_, s', calls) = close_shm munmap close s in (s', calls)
apply_op (unlinking errno shm_unlink) s =
    let (_, s', calls) = unlink errno shm_unlink s in (s', calls)
apply_op (moving munmap close) s =
    let (s', source) = move_segment s in (s', destroy_segment munmap close source)

-- A list of operations, and the destructor.
unfoldable pub live : Reply → Reply → List SegmentOp → Segment → List Call
live munmap close [] s = destroy_segment munmap close s
live munmap close (op ∷ ops) s =
    let (s', calls) = apply_op op s in calls ++ live munmap close ops s'
