-- ===== src/Alignment.antt =====
-- include/lle/detail/alignment.hpp: rounding a size up to a power of two.
pub mod Laws
mod Tests
use low_latency_event_engine.Base.{ℕ, ◌≡◌, Bool, bit_and, ◌==◌, if◌then◌else◌, add64, sub64}

-- `detail::align_up`, in `std::size_t`.
unfoldable pub align_up : ℕ → ℕ → ℕ
align_up value alignment =
    let remainder = bit_and value (sub64 alignment 1) in
    if remainder == 0 then value else sub64 (add64 value alignment) remainder
