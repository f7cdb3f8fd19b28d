-- ===== src/Ring.antt =====
-- The single-producer single-consumer ring in shared memory: include/shm/ring_layout.hpp,
-- include/shm/spsc_ring.hpp and src/shm/spsc_ring.cpp.
pub mod Layout
pub mod Setup
pub mod Ops
pub mod Geometry
pub mod Sizes
pub mod Queue
pub mod Linked
pub mod Refine
pub mod Concurrent
pub mod Start
pub mod Samples
mod Tests
