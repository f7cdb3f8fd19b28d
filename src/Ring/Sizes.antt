-- ===== src/Ring/Sizes.antt =====
-- `required_bytes` of src/shm/spsc_ring.cpp: which configurations it accepts, and their size.
use low_latency_event_engine.Base.{
  ℕ, ◌+◌, ◌-◌, ◌*◌, ◌/◌, ◌^◌, ◌≤◌, ◌<◌, ◌≡◌, ◌≢◌, ◌⊎◌, inl, inr, ◌∙◌, sym, ap, arith, bit_and,
  sub32, add64, value, unexpected, false, ltb, le→ltb,
}
use low_latency_event_engine.Base.Bits.{IsPowerOfTwo, single_bit_iff}
use low_latency_event_engine.Alignment.{align_up}
use low_latency_event_engine.Alignment.Laws.{align_up_line}
use low_latency_event_engine.Ring.Setup.{RingConfig, RingError, slot_stride_of, required_bytes}
use low_latency_event_engine.Ring.Geometry.{IsGeometry}
use native.Mathlib.Nat.{le-div_iff_mul-le, mul-le-mul}
use native.Mathlib.Decide.{dec_lt, dec_le, ℕ_discrete}

-- The widths of the fields of `RingConfig`.
pub record HasWidths (config : RingConfig) : Type 0 where
  pub count_width : config.slot_count < 2 ^ 32
  pub capacity_width : config.slot_payload_capacity < 2 ^ 32

-- Metadata and payload, rounded up to whole cache lines.
abbrev pub stride : RingConfig → ℕ
stride config = (32 + config.slot_payload_capacity + 63) / 64 * 64

-- A configuration that docs/memory-model.md allows.
pub record IsAllowed (config : RingConfig) : Type 0 where
  pub power : IsPowerOfTwo config.slot_count
  pub at_least : 2 ≤ config.slot_count
  pub stride_width : stride config < 2 ^ 32

abbrev pub ring_size : RingConfig → ℕ
ring_size config = 192 + stride config * config.slot_count

module _ (config : RingConfig) (w : HasWidths config) where
  pub slot_stride_of_lem : slot_stride_of config.slot_payload_capacity ≡ stride config
  unfolding slot_stride_of
  slot_stride_of_lem =
      ap (λ t. align_up t 64) sum
      ∙ align_up_line (32 + config.slot_payload_capacity) (omega (arith, w.capacity_width))
    where
      sum : add64 32 config.slot_payload_capacity ≡ 32 + config.slot_payload_capacity
      sum = omega (arith, w.capacity_width)

  pub IsAllowed-IsGeometry :
      IsAllowed config → IsGeometry config.slot_count (stride config) config.slot_payload_capacity
  IsAllowed-IsGeometry a = record {
    power = a.power;
    at_least = a.at_least;
    count_width = w.count_width;
    stride_width = a.stride_width;
    room = omega arith;
  }

  -- The size of an allowed ring is far from wrapping `std::size_t`.
  pub ring_size-lt : stride config < 2 ^ 32 → ring_size config < 2 ^ 64
  ring_size-lt h = omega (arith, w.count_width, mul-le-mul (bounded h) (count_bound w.count_width))
    where
      bounded : stride config < 2 ^ 32 → stride config ≤ 2 ^ 32 - 1
      bounded h = omega arith

      count_bound : config.slot_count < 2 ^ 32 → config.slot_count ≤ 2 ^ 32 - 1
      count_bound h = omega arith

  -- The second overflow check never fires behind the first.
  fits : stride config < 2 ^ 32 → ltb ((2 ^ 64 - 1 - 192) / stride config) config.slot_count ≡ false
  fits h = le→ltb _ _ (
      (le-div_iff_mul-le (omega arith)).1
        (omega (arith, ring_size-lt h, swap config.slot_count (stride config))))
    where
      swap : (a b : ℕ) → a * b ≡ b * a
      swap a b = omega arith

  pub required_bytes-allowed : IsAllowed config → required_bytes config ≡ value (ring_size config)
  unfolding required_bytes
  required_bytes-allowed a = ground (
    arith,
    a.at_least,
    a.stride_width,
    slot_stride_of_lem,
    single_bit,
    fits a.stride_width,
    ring_size-lt a.stride_width,
  )
    where
      single_bit : bit_and config.slot_count (sub32 config.slot_count 1) ≡ 0
      single_bit =
          ap (bit_and config.slot_count) (omega (arith, a.at_least, w.count_width))
          ∙ (single_bit_iff config.slot_count (omega (arith, a.at_least))).1 a.power

  -- For a configuration of 32-bit fields `required_bytes` has three outcomes. An allowed one gets the
  -- exact size of the header and all slots. A slot count that is below two or no power of two is an invalid configuration. Any
  -- other configuration overflows: its stride does not fit 32 bits.
  pub required_bytes_lem :
      (IsAllowed config × (required_bytes config ≡ value (ring_size config)))
      ⊎ (¬ ((2 ≤ config.slot_count) × IsPowerOfTwo config.slot_count)
          × (required_bytes config ≡ unexpected RingError.invalid_config))
      ⊎ ((2 ≤ config.slot_count)
          × IsPowerOfTwo config.slot_count
          × (2 ^ 32 ≤ stride config)
          × (required_bytes config ≡ unexpected RingError.size_overflow))
  required_bytes_lem = elim (dec_le 2 config.slot_count) [
    | no few ↦ inr (inl ((λ p. few p.0), too_few few))
    | yes enough ↦ elim (ℕ_discrete (bit_and config.slot_count (sub32 config.slot_count 1)) 0) [
      | no many ↦ inr (inl ((λ p. many (tested p.0 p.1)), not_single many))
      | yes single ↦ elim (dec_lt (stride config) (2 ^ 32)) [
        | yes small ↦
            let a : IsAllowed config = record {
              power = (single_bit_iff config.slot_count (omega arith)).0 (single_bit enough single);
              at_least = enough;
              stride_width = small;
            } in
            inl (a, required_bytes-allowed a)
        | no large ↦ inr (
            inr (
              enough,
              (single_bit_iff config.slot_count (omega arith)).0 (single_bit enough single),
              omega arith,
              too_large enough single (omega arith),
            ))
      ]
    ]
  ]
    where
      mask : 2 ≤ config.slot_count → sub32 config.slot_count 1 ≡ config.slot_count - 1
      mask h = omega (arith, w.count_width)

      single_bit :
          2 ≤ config.slot_count
          → bit_and config.slot_count (sub32 config.slot_count 1) ≡ 0
          → bit_and config.slot_count (config.slot_count - 1) ≡ 0
      single_bit h e = sym (ap (bit_and config.slot_count) (mask h)) ∙ e

      tested :
          2 ≤ config.slot_count
          → IsPowerOfTwo config.slot_count
          → bit_and config.slot_count (sub32 config.slot_count 1) ≡ 0
      tested h p =
          ap (bit_and config.slot_count) (mask h)
          ∙ (single_bit_iff config.slot_count (omega arith)).1 p

      too_few :
          ¬ (2 ≤ config.slot_count) → required_bytes config ≡ unexpected RingError.invalid_config
      too_few h = unfold required_bytes in ground arith

      not_single :
          bit_and config.slot_count (sub32 config.slot_count 1) ≢ 0
          → required_bytes config ≡ unexpected RingError.invalid_config
      not_single h = unfold required_bytes in ground arith

      too_large :
          2 ≤ config.slot_count
          → bit_and config.slot_count (sub32 config.slot_count 1) ≡ 0
          → 2 ^ 32 ≤ stride config
          → required_bytes config ≡ unexpected RingError.size_overflow
      too_large h e l = unfold required_bytes in ground (arith, slot_stride_of_lem)
