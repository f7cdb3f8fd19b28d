-- ===== src/Ring/Start/Success.antt =====
-- What a successful `initialize` of src/shm/spsc_ring.cpp shows of its arguments.
use low_latency_event_engine.Base.{
  ℕ, ◌+◌, ◌*◌, ◌<◌, ◌≡◌, ◌≢◌, inl, inr, refl, sym, arith, true, false, ◌||◌, ◌!=◌, Bool-cases,
  length, Expected, value, unexpected, ne→==,
}
use mathlib.Core.Path.{subst}
use native.Mathlib.Decide.{ℕ_discrete}
use low_latency_event_engine.Ring.Layout.{Memory}
use low_latency_event_engine.Ring.Setup.{
  RingConfig, RingError, SpscRing, required_bytes, invalid_memory, initialize,
}
use low_latency_event_engine.Ring.Sizes.{HasWidths, stride, ring_size, required_bytes_lem}
use low_latency_event_engine.Ring.Start.{IsRoom, StartsEmpty, initialize-attach}

-- Slots of the memory that are large enough for the stride.
abbrev pub HasStorage : Memory → RingConfig → Type 0
HasStorage memory config =
    (i : ℕ)
    → i < config.slot_count
    → 32 + length (memory.slots (stride config * i)).bytes ≡ stride config

-- If the result is a handle, an attachment to the memory gives the other side of an empty ring.
abbrev pub IsReady : Expected SpscRing RingError × Memory → Type 0
IsReady (unexpected e, m) = Unit {0}
IsReady (value p, m) = (c : SpscRing) × StartsEmpty p c (value p, m)

StartsEmpty-IsReady :
    (p c : SpscRing) (out : Expected SpscRing RingError × Memory)
    → StartsEmpty p c out
    → IsReady out
StartsEmpty-IsReady p c (unexpected e, m) starts = tt
StartsEmpty-IsReady p c (value q, m) starts =
    (c, subst (λ x. StartsEmpty x c (value q, m)) (sym same) starts)
  where
    same : q ≡ p
    same = let e = starts.initialized in grind arith

module _ (memory : Memory) (config : RingConfig) (id : ℕ) (w : HasWidths config)
    (storage : HasStorage memory config) where
  no_identity : id ≡ 0 → initialize memory config id ≡ (unexpected RingError.invalid_config, memory)
  unfolding initialize
  no_identity e = ground (arith, e)

  no_size :
      (e : RingError)
      → id ≢ 0
      → required_bytes config ≡ unexpected e
      → initialize memory config id ≡ (unexpected e, memory)
  unfolding initialize
  no_size e nonzero sized = rw (ne→== id 0 nonzero, sized) refl

  no_memory :
      id ≢ 0
      → required_bytes config ≡ value (ring_size config)
      → (invalid_memory memory || memory.size != ring_size config) ≡ true
      → initialize memory config id ≡ (unexpected RingError.invalid_memory_error, memory)
  unfolding initialize
  no_memory nonzero sized bad = rw (ne→== id 0 nonzero, sized, bad) refl

  room : (invalid_memory memory || memory.size != ring_size config) ≡ false → IsRoom memory config
  unfolding invalid_memory
  room good = record {
    nonnull = grind (arith, good);
    aligned = grind (arith, good);
    exact = grind (arith, good);
    storage = storage;
  }

  -- Whenever `initialize` succeeds, whatever its arguments, the memory that it leaves holds an empty
  -- ring that `attach` accepts.
  pub initialize-IsReady : IsReady (initialize memory config id)
  initialize-IsReady = elim (ℕ_discrete id 0) [
    | yes zero_id ↦ rw (no_identity zero_id) tt
    | no nonzero ↦ elim (required_bytes_lem config w) [
      | inr (inl (_, sized)) ↦ rw (no_size RingError.invalid_config nonzero sized) tt
      | inr (inr (_, _, _, sized)) ↦ rw (no_size RingError.size_overflow nonzero sized) tt
      | inl (allowed, sized) ↦
          elim (Bool-cases (invalid_memory memory || memory.size != ring_size config)) [
            | inl bad ↦ rw (no_memory nonzero sized bad) tt
            | inr good ↦
                let (p, c, starts) =
                  initialize-attach memory config id w allowed (room good) nonzero in
                StartsEmpty-IsReady p c (initialize memory config id) starts
          ]
    ]
  ]
