-- ===== src/Protocol/ByteIo.antt =====
-- src/protocol/byte_io.hpp: little-endian integers at an offset of a byte buffer.
use low_latency_event_engine.Base.{
  ℕ, zero, suc, ◌+◌, [], ◌∷◌, Bool, ◌&&◌, List, bit_or, leb, set, u8, u16, u32, u64, ◌<<<◌, ◌>>>◌,
  sub64,
}

-- `has_bytes`: `count` bytes from `offset` on lie within `size`.
unfoldable pub has_bytes : ℕ → ℕ → ℕ → Bool
has_bytes size offset count = leb offset size && leb count (sub64 size offset)

-- `write_u16(dst + at, value)`, on the buffer that `dst` points to.
unfoldable pub write_u16 : List ℕ → ℕ → ℕ → List ℕ
write_u16 dst at value = set (set dst at (u8 value)) (at + 1) (u8 (value >>> 8))

unfoldable pub write_u32 : List ℕ → ℕ → ℕ → List ℕ
write_u32 dst at value = write_u16 (write_u16 dst at (u16 value)) (at + 2) (u16 (value >>> 16))

unfoldable pub write_u64 : List ℕ → ℕ → ℕ → List ℕ
write_u64 dst at value = write_u32 (write_u32 dst at (u32 value)) (at + 4) (u32 (value >>> 32))

-- What a `const std::byte*` points to: the byte at each offset from it.
abbrev pub Bytes : Type 0
Bytes = ℕ → ℕ

-- The `count` bytes from `src + at` on.
abbrev pub bytes_from : Bytes → ℕ → ℕ → List ℕ
bytes_from src at zero = []
bytes_from src at (suc count) = src at ∷ bytes_from src (at + 1) count

-- `read_u16(src + at)`.
unfoldable pub read_u16 : Bytes → ℕ → ℕ
read_u16 src at = u16 (bit_or (src at) (src (at + 1) <<< 8))

unfoldable pub read_u32 : Bytes → ℕ → ℕ
read_u32 src at = u32 (bit_or (read_u16 src at) (u32 (read_u16 src (at + 2) <<< 16)))

unfoldable pub read_u64 : Bytes → ℕ → ℕ
read_u64 src at = u64 (bit_or (read_u32 src at) (u64 (read_u32 src (at + 4) <<< 32)))
