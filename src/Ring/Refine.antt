-- ===== src/Ring/Refine.antt =====
-- The operations of include/shm/spsc_ring.hpp implement the bounded queue.
pub mod Cache
pub mod Write
pub mod Publish
pub mod Acquire
pub mod Release
pub mod Calls
pub mod Delivery
