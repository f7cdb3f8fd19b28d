-- ===== src/Ring/Geometry.antt =====
-- Where the slots of a ring lie: bounds of the address arithmetic of include/shm/spsc_ring.hpp.
use low_latency_event_engine.Base.{
  ℕ, ◌+◌, ◌-◌, ◌*◌, ◌%◌, ◌^◌, ◌≤◌, ◌<◌, ◌≡◌, ◌≢◌, ◌⊎◌, inl, inr, ◌∙◌, sym, ap, arith, bit_and,
  sub32, mul64,
}
use low_latency_event_engine.Base.Bits.{IsPowerOfTwo, bit_and_mask}
use low_latency_event_engine.Ring.Setup.{SpscRing}
use low_latency_event_engine.Ring.Ops.{slot_offset}
use native.Mathlib.Nat.{mod-lt, mod-add-mod, mod-eq_of_lt, mod-eq-sub-mod}
use native.Mathlib.Decide.{dec_lt}

-- What setup has validated before a handle is constructed.
pub record IsGeometry (count stride capacity : ℕ) : Type 0 where
  pub power : IsPowerOfTwo count
  pub at_least : 2 ≤ count
  pub count_width : count < 2 ^ 32
  pub stride_width : stride < 2 ^ 32
  pub room : 32 + capacity ≤ stride

pub mul-lt : (a b : ℕ) → a < 2 ^ 32 → b < 2 ^ 32 → a * b < 2 ^ 64
mul-lt a b h k = grind arith

-- `position & (count - 1)` is the remainder by the count.
index_lem :
    (count position : ℕ)
    → IsPowerOfTwo count
    → 2 ≤ count
    → count < 2 ^ 32
    → bit_and position (sub32 count 1) ≡ position % count
index_lem count position (k, e) two small =
    ap (bit_and position) mask ∙ bit_and_mask k position ∙ ap (λ (t : ℕ). position % t) (sym e)
  where
    mask : sub32 count 1 ≡ 2 ^ k - 1
    mask = omega (arith, e)

abbrev pub HasGeometry : SpscRing → Type 0
HasGeometry r = IsGeometry r.slot_count r.slot_stride r.slot_payload_capacity

module _ (r : SpscRing) (g : HasGeometry r) where
  pub slot_offset_lem :
      (position : ℕ) → slot_offset r position ≡ r.slot_stride * (position % r.slot_count)
  unfolding slot_offset
  slot_offset_lem position =
      ap (mul64 r.slot_stride) (index_lem r.slot_count position g.power g.at_least g.count_width)
      ∙ no_wrap
    where
      index-lt : position % r.slot_count < 2 ^ 32
      index-lt =
          omega
            (arith, mod-lt position {m = r.slot_count} (omega (arith, g.at_least)), g.count_width)

      no_wrap :
          mul64 r.slot_stride (position % r.slot_count) ≡ r.slot_stride * (position % r.slot_count)
      no_wrap =
          mod-eq_of_lt (mul-lt r.slot_stride (position % r.slot_count) g.stride_width index-lt)

  -- In a ring of valid geometry every slot lies within the memory behind the header.
  pub slot_offset-in_bounds :
      (position : ℕ) → slot_offset r position + r.slot_stride ≤ r.slot_stride * r.slot_count
  slot_offset-in_bounds position = rw slot_offset_lem (
      fits (position % r.slot_count)
        (mod-lt position {m = r.slot_count} (omega (arith, g.at_least))))
    where
      fits :
          (i : ℕ)
          → i < r.slot_count
          → r.slot_stride * i + r.slot_stride ≤ r.slot_stride * r.slot_count
      fits i h = grind arith

  -- Positions less than a lap apart have different indices.
  index-ne : (i d : ℕ) → 0 < d → d < r.slot_count → (i + d) % r.slot_count ≢ i % r.slot_count
  index-ne i d pos small = elim (dec_lt (i % r.slot_count + d) r.slot_count) [
    | yes p ↦ omega (arith, mod-add-mod i r.slot_count d, mod-eq_of_lt p)
    | no p ↦ omega (
      arith,
      mod-add-mod i r.slot_count d,
      mod-lt i {m = r.slot_count} (omega (arith, g.at_least)),
      mod-eq-sub-mod {n = i % r.slot_count + d} {m = r.slot_count} (omega arith),
      mod-eq_of_lt {n = i % r.slot_count + d - r.slot_count} {m = r.slot_count}
          (omega (arith, mod-lt i {m = r.slot_count} (omega (arith, g.at_least)))),
    )
  ]

  apart :
      (i j : ℕ)
      → i ≢ j
      → (r.slot_stride * i + r.slot_stride ≤ r.slot_stride * j)
        ⊎ (r.slot_stride * j + r.slot_stride ≤ r.slot_stride * i)
  apart i j ne = elim (dec_lt i j) [ yes p ↦ inl (grind arith) | no p ↦ inr (grind arith) ]

  -- In a ring of valid geometry the slots of two positions less than a lap apart do not overlap.
  pub slot_offset-disjoint :
      (i d : ℕ)
      → 0 < d
      → d < r.slot_count
      → (slot_offset r i + r.slot_stride ≤ slot_offset r (i + d))
        ⊎ (slot_offset r (i + d) + r.slot_stride ≤ slot_offset r i)
  slot_offset-disjoint i d pos small =
      rw (slot_offset_lem i, slot_offset_lem (i + d))
        (apart (i % r.slot_count) ((i + d) % r.slot_count) (λ e. index-ne i d pos small (sym e)))

  pub slot_offset-ne :
      (i d : ℕ) → 0 < d → d < r.slot_count → slot_offset r (i + d) ≢ slot_offset r i
  slot_offset-ne i d pos small e = ground (arith, slot_offset-disjoint i d pos small, g.room)
