-- ===== src/Startup.antt =====
-- What the `initialize` functions of src/sender/sender.cpp and src/receiver/receiver.cpp share: the
-- platform that they run on, the memory of a segment, and the loop over `getrandom`.
pub mod Identity
mod Tests
use low_latency_event_engine.Base.{
  ℕ, Bool, true, false, ◌&&◌, ◌==◌, ◌!=◌, if◌then◌else◌, List, [], ◌∷◌, ◌++◌, Option, none, some,
}
use low_latency_event_engine.Os.{Name, Call}
use low_latency_event_engine.Transport.{SockaddrIn, Errno}
use low_latency_event_engine.Segment.{Segment, SegmentErrno}
use low_latency_event_engine.Ring.Layout.{Memory}

-- `inet_pton`, which gives the number of a valid address, and the error numbers.
pub record Platform : Type 0 where
  pub inet_pton : Name → Option ℕ
  pub errno : Errno
  pub segment_errno : SegmentErrno

-- What a call of `getrandom` returns: -1 with `errno`, or a count of bytes, and the number then.
pub data Draw : Type 0 where
  draw_failed : ℕ → Draw
  drawn : (count id : ℕ) → Draw

-- What a start gives and the calls that it has made; `none` is a start that has not returned.
abbrev pub Started : Type 0 → Type 0
Started A = Option (A × List Call)

-- A start behind calls that have been made.
unfoldable pub behind : {A : Type 0} → List Call → Started A → Started A
behind calls none = none
behind calls (some (result, more)) = some (result, calls ++ more)

-- The loop over `getrandom` for a number of `width` bytes, over what its calls return: `none` while it
-- has not returned, then the number, if any.
unfoldable pub draw_id : Errno → ℕ → List Draw → Option (Option ℕ)
draw_id errno width [] = none
draw_id errno width (draw_failed e ∷ draws) =
    let rest = draw_id errno width draws in if e == errno.eintr then rest else some none
draw_id errno width (drawn count id ∷ draws) =
    let rest = draw_id errno width draws in
    if count != width then some none else if id == 0 then rest else some (some id)

abbrev pub address_of : Option ℕ → ℕ
address_of none = 0
address_of (some a) = a

-- `bytes()` of a segment whose shared memory holds `contents`.
unfoldable pub bytes : Segment → Memory → Memory
bytes s contents = record contents { address = address_of s.address; size = s.size }
