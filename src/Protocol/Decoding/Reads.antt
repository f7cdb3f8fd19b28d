-- ===== src/Protocol/Decoding/Reads.antt =====
-- The reads of src/protocol/byte_io.hpp give back the number whose little-endian digits they meet.
use low_latency_event_engine.Base.{ℕ, ◌+◌, ◌*◌, ◌/◌, ◌%◌, ◌^◌, ◌<◌, ◌≡◌, arith, u32, u64}
use low_latency_event_engine.Base.Bits.{bit_or_fields}
use low_latency_event_engine.Protocol.ByteIo.{Bytes, read_u16, read_u32, read_u64}

-- `src` holds the little-endian digits of `v` from `at` on.
pub record Stored16 (src : Bytes) (at v : ℕ) : Type 0 where
  pub low : src at ≡ v % 2 ^ 8
  pub high : src (at + 1) ≡ v / 2 ^ 8 % 2 ^ 8

pub record Stored32 (src : Bytes) (at v : ℕ) : Type 0 where
  pub low : Stored16 src at (v % 2 ^ 16)
  pub high : Stored16 src (at + 2) (v / 2 ^ 16 % 2 ^ 16)

pub record Stored64 (src : Bytes) (at v : ℕ) : Type 0 where
  pub low : Stored32 src at (v % 2 ^ 32)
  pub high : Stored32 src (at + 4) (v / 2 ^ 32 % 2 ^ 32)

module _ (src : Bytes) (at : ℕ) where
  pub read_u16_lem : (v : ℕ) → Stored16 src at v → read_u16 src at ≡ v % 2 ^ 16
  unfolding read_u16
  read_u16_lem v s =
      rw (s.low, s.high)
        (omega (arith, bit_or_fields 8 (v % 2 ^ 8) (v / 2 ^ 8 % 2 ^ 8) (omega arith)))

  -- A read of a byte buffer fits its width.
  pub read_u16-lt : read_u16 src at < 2 ^ 16
  unfolding read_u16
  read_u16-lt = omega arith

  pub read_u32-lt : read_u32 src at < 2 ^ 32
  unfolding read_u32
  read_u32-lt = omega arith

  pub read_u64-lt : read_u64 src at < 2 ^ 64
  unfolding read_u64
  read_u64-lt = omega arith

  pub read_u16_sum :
      src at < 2 ^ 8 → src (at + 1) < 2 ^ 8 → read_u16 src at ≡ src at + src (at + 1) * 2 ^ 8
  unfolding read_u16
  read_u16_sum lo hi = omega (arith, bit_or_fields 8 (src at) (src (at + 1)) (omega arith))

module _ (src : Bytes) (at : ℕ) where
  pub read_u32_sum : read_u32 src at ≡ read_u16 src at + read_u16 src (at + 2) * 2 ^ 16
  unfolding read_u32
  read_u32_sum =
      let lo : read_u16 src at < 2 ^ 16 = read_u16-lt src at in
      let hi : read_u16 src (at + 2) < 2 ^ 16 = read_u16-lt src (at + 2) in
      let shift : u32 (read_u16 src (at + 2) * 2 ^ 16) ≡ read_u16 src (at + 2) * 2 ^ 16 =
        omega arith in
      rw shift (omega (arith, bit_or_fields 16 (read_u16 src at) (read_u16 src (at + 2)) lo))

module _ (src : Bytes) (at : ℕ) where
  pub read_u64_sum : read_u64 src at ≡ read_u32 src at + read_u32 src (at + 4) * 2 ^ 32
  unfolding read_u64
  read_u64_sum =
      let lo : read_u32 src at < 2 ^ 32 = read_u32-lt src at in
      let hi : read_u32 src (at + 4) < 2 ^ 32 = read_u32-lt src (at + 4) in
      let shift : u64 (read_u32 src (at + 4) * 2 ^ 32) ≡ read_u32 src (at + 4) * 2 ^ 32 =
        omega arith in
      rw shift (omega (arith, bit_or_fields 32 (read_u32 src at) (read_u32 src (at + 4)) lo))

  pub read_u32_lem : (v : ℕ) → Stored32 src at v → read_u32 src at ≡ v % 2 ^ 32
  read_u32_lem v s = omega (
    arith,
    read_u32_sum src at,
    read_u16_lem src at (v % 2 ^ 16) s.low,
    read_u16_lem src (at + 2) (v / 2 ^ 16 % 2 ^ 16) s.high,
  )

module _ (src : Bytes) (at : ℕ) where
  pub read_u64_lem : (v : ℕ) → Stored64 src at v → read_u64 src at ≡ v % 2 ^ 64
  read_u64_lem v s = omega (
    arith,
    read_u64_sum src at,
    read_u32_lem src at (v % 2 ^ 32) s.low,
    read_u32_lem src (at + 4) (v / 2 ^ 32 % 2 ^ 32) s.high,
  )
