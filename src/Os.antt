-- ===== src/Os.antt =====
-- The operating system as src/shm/segment.cpp and src/transport see it. Its calls are not code of this
-- repository: what each returns is an argument of the code that makes it, and the code gives the list
-- of the calls that it makes, in order.
pub mod Ledger
use low_latency_event_engine.Base.{ℕ, List}

-- What a system call returns: -1 with `errno`, or a count, descriptor or address.
pub data Reply : Type 0 where
  failed : ℕ → Reply
  returned : ℕ → Reply

-- A text as the codes of its characters.
abbrev pub Name : Type 0
Name = List ℕ

-- The calls that acquire something and those that unmap or unlink it, with what they return, and the
-- others that concern it.
pub data Call : Type 0 where
  created : Name → Reply → Call
  opened : Name → Reply → Call
  resized : (descriptor size : ℕ) → Call
  inspected : (descriptor : ℕ) → Call
  mapped : (descriptor size : ℕ) → Reply → Call
  unmapped : (address size : ℕ) → Reply → Call
  closed_descriptor : (descriptor : ℕ) → Call
  unlinked : Name → Reply → Call
  socket_opened : Reply → Call
  socket_bound : (descriptor : ℕ) → Call
  socket_named : (descriptor : ℕ) → Call
