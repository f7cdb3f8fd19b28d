-- ===== src/Lib.antt =====
-- Verification of the low-latency event engine: a single-producer single-consumer ring in shared
-- memory, the LLEP wire protocol, the loss detector and the two engines that connect them over UDP.
--
-- A local producer publishes events into an ingress ring. The sender acquires them, encodes each as
-- one DATA packet and sends it to every destination. The receiver decodes datagrams, drops duplicates
-- and foreign sessions by packet sequence, and publishes the events into an egress ring, from which a
-- local consumer acquires them.
--
-- Parts and files:
-- - Base: lists with native indices for arrays and spans, unsigned words with wrap-around,
--   `std::expected`, and the lemmas that the parts share.
-- - Alignment: include/lle/detail/alignment.hpp.
-- - Event: include/lle/event.hpp.
-- - Protocol: include/lle/protocol/types.hpp, src/protocol/byte_io.hpp, encoder.cpp and decoder.cpp.
--   A buffer is a list of bytes. Reads behind the end of a span, those through its subspans too, give
--   the bytes of a function that stands for the memory there. Wire describes the packet of docs/protocol.md on its own.
-- - Gap: include/lle/gap_detector.hpp and src/reliability/gap_detector.cpp.
-- - Ring: include/shm/ring_layout.hpp, include/shm/spsc_ring.hpp and src/shm/spsc_ring.cpp. The shared
--   memory is a typed header and a function from byte offsets to slots; a handle is a record of the
--   class's members. Ops has each call as one step. Queue is the bounded queue that the ring
--   implements, Refine the proof that it does, call by call, and Start that initialization and
--   attachment establish its invariant. Concurrent has the same calls at the granularity of their
--   shared accesses, by a producer and a consumer thread that interleave in any way; Invariant has
--   what holds between two actions, and Safety and WaitFree are about whole interleavings.
-- - Stats: include/lle/stats.hpp.
-- - Os: the system calls of src/shm and src/transport. What a call returns is an argument of the code
--   that makes it, and the code gives the list of its calls; the calls that acquire, unmap and unlink
--   are listed with what they return. Ledger says what such a list acquires, and what it closes,
--   unmaps and unlinks.
-- - Transport: include/lle/transport/udp_types.hpp, udp_sender.hpp and udp_receiver.hpp, and
--   src/transport: receiving and sending one datagram. Sockets has addresses and the life of the
--   sockets, Ownership what they hold.
-- - Segment: include/shm/segment.hpp and src/shm/segment.cpp. Lifetime has the operations other than
--   creation; Holdings and Resources say what the operations acquire and give back, Closing what any
--   sequence of them closes.
-- - Config: include/lle/config.hpp and include/lle/init_error.hpp.
-- - Startup: what the `initialize` functions of the engines share.
-- - Receiver: include/lle/receiver.hpp and src/receiver/receiver.cpp. `run` is a function of the turns
--   that reach its loop; a turn says whether a stop is seen, what the consumer has written into the
--   ring's memory, and what `poll` and `recvmsg` return. Accounting and Totals are about its counters,
--   Forwarding about one datagram, Stopping about its end. Startup has `initialize`, Startup/Shutdown
--   moves and the destructor; Cleanup, Fresh, Moves and Lifetime are about them.
-- - Sender: include/lle/sender.hpp and src/sender/sender.cpp, in the same way, with what the producer
--   has written and what `sendto` returns for each destination.
-- - Engine: a sender's turn and a receiver's turn together.
-- - Smoke: apps/udp_smoke.cpp.
--
-- Bounds: sizes, positions and sequences are natural numbers, with the wrap-around of `std::size_t`,
-- `std::uint32_t` and `std::uint64_t` written out where the code computes in them. No definition takes
-- fuel. The unbounded loops recurse on what reaches them: those of the engines on the list of turns,
-- that over `getrandom` on the list of its replies. They say whether they have returned; the theorems
-- on stopping and on the drawn identity give a turn or a reply by which they have.
--
-- Not modelled: weaker memory orders (the accesses of the two threads are steps in one order, as
-- sequential consistency gives them, where the code asks for acquire and release), the time that calls
-- take, the bytes of a string that the code moves from, the texts that apps/udp_smoke.cpp prints, and
-- the files that hold no logic (src/platform, the two placeholders of src/reliability,
-- include/lle/version.hpp, the other apps, benchmarks, tests).
pub mod Base
pub mod Alignment
pub mod Event
pub mod Stats
pub mod Os
pub mod Protocol
pub mod Gap
pub mod Ring
pub mod Transport
pub mod Segment
pub mod Config
pub mod Startup
pub mod Receiver
pub mod Sender
pub mod Engine
pub mod Smoke
