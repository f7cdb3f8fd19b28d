-- ===== src/Protocol/Encoding/Writes.antt =====
-- The writes of src/protocol/byte_io.hpp and of the encoder, as growing prefixes of the output buffer.
use low_latency_event_engine.Base.{
  ℕ, zero, suc, ◌+◌, ◌/◌, ◌%◌, ◌^◌, ◌≤◌, ◌<◌, ◌≡◌, ◌∙◌, ap, List, [], ◌∷◌, ◌++◌, arith, length,
  replicate, drop, set, copy_at, u8, u16, u32, set-append-drop, length-append,
}
use low_latency_event_engine.Protocol.ByteIo.{write_u16, write_u32, write_u64}
use low_latency_event_engine.Protocol.Encoder.{fill_zero}
use low_latency_event_engine.Protocol.Wire.{bytes_u16, bytes_u32, bytes_u64}
use mathlib.Core.List.{append_assoc, append-nil}

-- The buffer `buf` is `out` with its front overwritten by `pre`.
pub record Written (out pre buf : List ℕ) : Type 0 where
  pub front : buf ≡ pre ++ drop (length pre) out

bytes_u32-split : (v : ℕ) → bytes_u16 (u16 v) ++ bytes_u16 (u16 (v / 2 ^ 16)) ≡ bytes_u32 v
bytes_u32-split v = ground arith

bytes_u64-split :
    (v : ℕ) → v < 2 ^ 64 → bytes_u32 (u32 v) ++ bytes_u32 (u32 (v / 2 ^ 32)) ≡ bytes_u64 v
bytes_u64-split v h = ap (λ t. bytes_u32 (v % 2 ^ 32) ++ bytes_u32 t) (omega arith)

module _ (out : List ℕ) where
  pub set-Written :
      {pre buf : List ℕ} (at v : ℕ)
      → Written out pre buf
      → at ≡ length pre
      → at < length out
      → Written out (pre ++ (v ∷ [])) (set buf at v)
  set-Written {pre} {buf} at v w e h = record {
    front =
        ap (λ b. set b at v) w.front
        ∙ ap (λ i. set (pre ++ drop (length pre) out) i v) e
        ∙ set-append-drop pre out (length pre) v (omega arith)
        ∙ ap (λ n. (pre ++ (v ∷ [])) ++ drop n out) grown;
  }
    where
      grown : suc (length pre) ≡ length (pre ++ (v ∷ []))
      grown = omega (arith, length-append pre (v ∷ []))

  -- Two writes in a row, as one of both parts.
  join-Written :
      (pre a b : List ℕ) {buf : List ℕ}
      → Written out ((pre ++ a) ++ b) buf
      → Written out (pre ++ (a ++ b)) buf
  join-Written pre a b w = rw append_assoc at w

  pub write_u16-Written :
      {pre buf : List ℕ} (at v : ℕ)
      → Written out pre buf
      → at ≡ length pre
      → at + 2 ≤ length out
      → Written out (pre ++ bytes_u16 v) (write_u16 buf at v)
  unfolding write_u16
  write_u16-Written {pre} at v w e h = join-Written pre (u8 v ∷ []) (u8 (v / 2 ^ 8) ∷ []) (
      set-Written (at + 1) (u8 (v / 2 ^ 8)) (set-Written at (u8 v) w e (omega arith))
        (omega (arith, length-append pre (u8 v ∷ []))) (omega arith))

  pub write_u32-Written :
      {pre buf : List ℕ} (at v : ℕ)
      → Written out pre buf
      → at ≡ length pre
      → at + 4 ≤ length out
      → Written out (pre ++ bytes_u32 v) (write_u32 buf at v)
  unfolding write_u32
  write_u32-Written {pre} at v w e h = rw (← bytes_u32-split v) (
      join-Written pre (bytes_u16 (u16 v)) (bytes_u16 (u16 (v / 2 ^ 16))) (
        write_u16-Written (at + 2) (u16 (v / 2 ^ 16))
          (write_u16-Written at (u16 v) w e (omega arith))
          (omega (arith, length-append pre (bytes_u16 (u16 v)))) (omega arith)))

  pub write_u64-Written :
      {pre buf : List ℕ} (at v : ℕ)
      → v < 2 ^ 64
      → Written out pre buf
      → at ≡ length pre
      → at + 8 ≤ length out
      → Written out (pre ++ bytes_u64 v) (write_u64 buf at v)
  unfolding write_u64
  write_u64-Written {pre} at v fits w e h = rw (← bytes_u64-split v fits) (
      join-Written pre (bytes_u32 (u32 v)) (bytes_u32 (u32 (v / 2 ^ 32))) (
        write_u32-Written (at + 4) (u32 (v / 2 ^ 32))
          (write_u32-Written at (u32 v) w e (omega arith))
          (omega (arith, length-append pre (bytes_u32 (u32 v)))) (omega arith)))

  pub copy_at-Written :
      {pre buf : List ℕ} (at : ℕ) (bytes : List ℕ)
      → Written out pre buf
      → at ≡ length pre
      → at + length bytes ≤ length out
      → Written out (pre ++ bytes) (copy_at buf at bytes)
  unfolding copy_at
  copy_at-Written at [] w e h = rw append-nil w
  copy_at-Written {pre} at (b ∷ bytes) w e h = join-Written pre (b ∷ []) bytes (
      copy_at-Written (at + 1) bytes (set-Written at b w e (omega arith))
        (omega (arith, length-append pre (b ∷ []))) (omega arith))

  pub fill_zero-Written :
      {pre buf : List ℕ} (at count : ℕ)
      → Written out pre buf
      → at ≡ length pre
      → at + count ≤ length out
      → Written out (pre ++ replicate count 0) (fill_zero buf at count)
  unfolding fill_zero
  fill_zero-Written at zero w e h = rw append-nil w
  fill_zero-Written {pre} at (suc count) w e h = join-Written pre (0 ∷ []) (replicate count 0) (
      fill_zero-Written (at + 1) count (set-Written at 0 w e (omega arith))
        (omega (arith, length-append pre (0 ∷ []))) (omega arith))
