-- ===== src/Segment.antt =====
-- include/shm/segment.hpp and src/shm/segment.cpp: a POSIX shared-memory segment. The system calls are
-- not code of this repository: what each returns is an argument, and each operation gives the list
-- of the calls that it makes, in order.
pub mod Lifetime
pub mod Holdings
pub mod Resources
pub mod Closing
mod Tests
use low_latency_event_engine.Base.{
  ℕ, Bool, true, false, not, ◌&&◌, ◌||◌, ◌==◌, ◌!=◌, ltb, leb, if◌then◌else◌, List, [], ◌∷◌, ◌++◌,
  Option, none, some, length, all, Expected, value, unexpected,
}
pub use low_latency_event_engine.Os.{
  Reply, failed, returned, Name, Call, created, opened, resized, inspected, mapped, unmapped,
  closed_descriptor, unlinked,
}

-- `SegmentOperation`.
pub data SegmentOperation : Type 0 where
  validate open_segment resize stat map unmap close_segment unlink_segment : SegmentOperation

-- `SegmentError`.
pub record SegmentError : Type 0 where
  pub operation : SegmentOperation
  pub error_number : ℕ

-- `SharedMemorySegment`: `none` is the descriptor -1 and the null address.
pub record Segment : Type 0 where
  pub name : Name
  pub descriptor : Option ℕ
  pub address : Option ℕ
  pub size : ℕ
  pub owner : Bool
  pub linked : Bool

-- `SharedMemorySegment()`.
abbrev pub no_segment : Segment
no_segment = record {
  name = [];
  descriptor = none;
  address = none;
  size = 0;
  owner = false;
  linked = false;
}

-- What the system calls return: for `fstat` the size, for `mmap` the address.
pub record Replies : Type 0 where
  pub shm_open : Reply
  pub ftruncate : Reply
  pub fstat : Reply
  pub mmap : Reply
  pub shm_unlink : Reply

-- The error numbers that the code names.
pub record SegmentErrno : Type 0 where
  pub einval : ℕ
  pub eperm : ℕ
  pub enoent : ℕ

abbrev pub max_segment_name_length : ℕ
max_segment_name_length = 255

-- `allowed_characters`: letters, digits, `.`, `_` and `-`.
abbrev pub is_allowed : ℕ → Bool
is_allowed c =
    (leb 97 c && leb c 122)
    || (leb 65 c && leb c 90)
    || (leb 48 c && leb c 57)
    || (c == 46)
    || (c == 95)
    || (c == 45)

-- `identifier != "." && identifier != ".."`.
abbrev pub is_dots : Name → Bool
is_dots [] = false
is_dots (c ∷ []) = c == 46
is_dots (c ∷ d ∷ []) = (c == 46) && (d == 46)
is_dots (c ∷ d ∷ e ∷ rest) = false

-- The tests behind those of the length.
abbrev pub is_path_valid : Name → Bool
is_path_valid [] = false
is_path_valid (c ∷ identifier) = (c == 47) && not (is_dots identifier) && all is_allowed identifier

-- `is_shm_name_valid`.
unfoldable pub is_shm_name_valid : Name → Bool
is_shm_name_valid name =
    if ltb (length name) 2 || ltb max_segment_name_length (length name)
    then false
    else is_path_valid name

abbrev pub failure : SegmentOperation → ℕ → SegmentError
failure operation error_number = record { operation = operation; error_number = error_number }

abbrev pub Made : Type 0
Made = Expected Segment SegmentError × List Call

-- `clean_up_failed_creation`.
abbrev pub clean_up_failed_creation : Reply → Name → ℕ → List Call
clean_up_failed_creation shm_unlink name descriptor =
    closed_descriptor descriptor ∷ unlinked name shm_unlink ∷ []

-- `create_shm` from `mmap` on.
unfoldable pub create_mapped : Replies → Name → ℕ → ℕ → Reply → Made
create_mapped r name size descriptor (failed errno) = (
  unexpected (failure SegmentOperation.map errno),
  mapped descriptor size (failed errno) ∷ clean_up_failed_creation r.shm_unlink name descriptor,
)
create_mapped r name size descriptor (returned address) = (
  value (record {
    name = name;
    descriptor = some descriptor;
    address = some address;
    size = size;
    owner = true;
    linked = true;
  }),
  mapped descriptor size (returned address) ∷ [],
)

-- `create_shm` from `ftruncate` on.
unfoldable pub create_resized : Replies → Name → ℕ → ℕ → Reply → Made
create_resized r name size descriptor (failed errno) = (
  unexpected (failure SegmentOperation.resize errno),
  resized descriptor size ∷ clean_up_failed_creation r.shm_unlink name descriptor,
)
create_resized r name size descriptor (returned _) =
    let (made, calls) = create_mapped r name size descriptor r.mmap in
    (made, resized descriptor size ∷ calls)

-- `create_shm` from `shm_open` on.
unfoldable pub create_opened : Replies → Name → ℕ → Reply → Made
create_opened r name size (failed errno) =
    (unexpected (failure SegmentOperation.open_segment errno), created name (failed errno) ∷ [])
create_opened r name size (returned descriptor) =
    let (made, calls) = create_resized r name size descriptor r.ftruncate in
    (made, created name (returned descriptor) ∷ calls)

-- `create_shm`.
unfoldable pub create_shm : SegmentErrno → Replies → Name → ℕ → Made
create_shm errno r name size =
    if not (is_shm_name_valid name) || size == 0
    then (unexpected (failure SegmentOperation.validate errno.einval), [])
    else create_opened r name size r.shm_open
