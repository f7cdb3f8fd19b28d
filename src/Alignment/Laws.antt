-- ===== src/Alignment/Laws.antt =====
-- What include/lle/detail/alignment.hpp promises of `align_up`.
use low_latency_event_engine.Base.{
  ℕ, ◌+◌, ◌-◌, ◌*◌, ◌/◌, ◌%◌, ◌^◌, ◌≤◌, ◌<◌, ◌≡◌, ◌≢◌, ◌⊎◌, inl, inr, ap, arith, bit_and, sub64,
  ◌∙◌,
}
use low_latency_event_engine.Base.Bits.{bit_and_mask}
use low_latency_event_engine.Alignment.{align_up}
use native.Mathlib.Nat.{one-le-pow, pow-le-pow_right, mod-add-mod, mod-eq_of_lt, mod-eq-sub-mod}
use native.Mathlib.Decide.{dec_lt}

-- `m` is the least multiple of `alignment` that is not below `value`.
pub record IsRoundedUp (value alignment m : ℕ) : Type 0 where
  pub multiple : m % alignment ≡ 0
  pub above : value ≤ m
  pub near : m < value + alignment

-- It is `value` itself, or it lies the missing part of the alignment above.
IsRoundedUp-cases :
    (v a m : ℕ)
    → 0 < a
    → IsRoundedUp v a m
    → ((v % a ≡ 0) × (m ≡ v)) ⊎ ((v % a ≢ 0) × (m + v % a ≡ v + a))
IsRoundedUp-cases v a m pos r = elim (dec_lt (v % a + (m - v)) a) [
  | yes below ↦ inl (
    omega (arith, r.above, mod-eq_of_lt below, total_zero),
    omega (arith, r.above, mod-eq_of_lt below, total_zero),
  )
  | no reached ↦ inr (
    omega (arith, r.above, r.near, reached),
    omega (
      arith,
      r.above,
      r.near,
      total_zero,
      mod-eq-sub-mod {n = v % a + (m - v)} {m = a} (omega arith),
      mod-eq_of_lt {n = v % a + (m - v) - a} {m = a} (omega (arith, r.above, r.near)),
    ),
  )
]
  where
    total_zero : (v % a + (m - v)) % a ≡ 0
    total_zero =
        mod-add-mod v a (m - v) ∙ ap (λ (t : ℕ). t % a) (omega (arith, r.above)) ∙ r.multiple

-- For an alignment that is a power of two, `align_up` returns the least multiple of it that is not
-- below the value, whenever that multiple fits `std::size_t`; the sum on the way may wrap.
pub align_up-IsRoundedUp :
    (k value m : ℕ) → k < 64 → m < 2 ^ 64 → IsRoundedUp value (2 ^ k) m → align_up value (2 ^ k) ≡ m
unfolding align_up
align_up-IsRoundedUp k value m small fits r =
    elim (IsRoundedUp-cases value (2 ^ k) m (one-le-pow k 2 (omega arith)) r) [
      | inl exact ↦ ground (arith, mask, remainder_eq)
      | inr up ↦ ground (arith, mask, remainder_eq, r.above, r.near, bound)
    ]
  where
    bound : 2 ^ k ≤ 2 ^ 63
    bound = pow-le-pow_right (omega arith) {j = 63} (omega arith)

    mask : sub64 (2 ^ k) 1 ≡ 2 ^ k - 1
    mask = omega (arith, bound, one-le-pow k 2 (omega arith))

    remainder_eq : bit_and value (sub64 (2 ^ k) 1) ≡ value % 2 ^ k
    remainder_eq = ap (bit_and value) mask ∙ bit_and_mask k value

-- The alignment of event frames: `align_up(n, 4)`.
pub align_up_four : (n : ℕ) → n < 2 ^ 63 → align_up n 4 ≡ (n + 3) / 4 * 4
align_up_four n h =
    align_up-IsRoundedUp 2 n ((n + 3) / 4 * 4) (omega arith) (omega arith)
      (record { multiple = omega arith; above = omega arith; near = omega arith })

-- The alignment of ring slots: `align_up(n, 64)`.
pub align_up_line : (n : ℕ) → n < 2 ^ 63 → align_up n 64 ≡ (n + 63) / 64 * 64
align_up_line n h =
    align_up-IsRoundedUp 6 n ((n + 63) / 64 * 64) (omega arith) (omega arith)
      (record { multiple = omega arith; above = omega arith; near = omega arith })
