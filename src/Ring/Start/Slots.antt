-- ===== src/Ring/Start/Slots.antt =====
-- The loop of `initialize` in src/shm/spsc_ring.cpp that constructs the slot headers.
-- creator and an attached handle.
use low_latency_event_engine.Base.{
  ℕ, zero, suc, ◌+◌, ◌≤◌, ◌<◌, ◌≡◌, ◌∙◌, refl, ap, arith, mul64, eq→==, ne→==,
}
use native.Mathlib.Decide.{ℕ_discrete}
use low_latency_event_engine.Ring.Layout.{Slot, put_slot}
use low_latency_event_engine.Ring.Setup.{new_slot_header, construct_slots}

pub construct_slots-bytes :
    (left index step : ℕ) (slots : ℕ → Slot) (k : ℕ)
    → (construct_slots left index step slots k).bytes ≡ (slots k).bytes
unfolding construct_slots
construct_slots-bytes zero index step slots k = refl
construct_slots-bytes (suc left) index step slots k =
    construct_slots-bytes left (index + 1) step _ k ∙ once
  where
    once :
        (put_slot slots
          (mul64 index step)
          (record { header = new_slot_header; bytes = (slots (mul64 index step)).bytes })
          k).bytes
        ≡ (slots k).bytes
    once = elim (ℕ_discrete (mul64 index step) k) [
      | yes e ↦ rw (eq→== _ _ e) (ap (λ j. (slots j).bytes) e)
      | no ne ↦ rw (ne→== _ _ ne)
    ]

construct_slots-keeps :
    (left index step : ℕ) (slots : ℕ → Slot) (k : ℕ)
    → (slots k).header ≡ new_slot_header
    → (construct_slots left index step slots k).header ≡ new_slot_header
unfolding construct_slots
construct_slots-keeps zero index step slots k h = h
construct_slots-keeps (suc left) index step slots k h =
    construct_slots-keeps left (index + 1) step _ k once
  where
    once :
        (put_slot slots
          (mul64 index step)
          (record { header = new_slot_header; bytes = (slots (mul64 index step)).bytes })
          k).header
        ≡ new_slot_header
    once = elim (ℕ_discrete (mul64 index step) k) [
      | yes e ↦ rw (eq→== _ _ e)
      | no ne ↦ rw (ne→== _ _ ne) h
    ]

-- The loop constructs the header of each of its slots.
pub construct_slots-header :
    (left index step : ℕ) (slots : ℕ → Slot) (i : ℕ)
    → index ≤ i
    → i < index + left
    → (construct_slots left index step slots (mul64 i step)).header ≡ new_slot_header
unfolding construct_slots
construct_slots-header zero index step slots i h k = absurd (omega arith)
construct_slots-header (suc left) index step slots i h k = elim (ℕ_discrete index i) [
  | yes e ↦ construct_slots-keeps left (index + 1) step _ (mul64 i step) (first e)
  | no ne ↦ construct_slots-header left (index + 1) step _ i (omega arith) (omega arith)
]
  where
    first :
        index ≡ i
        → (put_slot slots
            (mul64 index step)
            (record { header = new_slot_header; bytes = (slots (mul64 index step)).bytes })
            (mul64 i step)).header
          ≡ new_slot_header
    first e = rw (eq→== _ _ (ap (λ j. mul64 j step) e))
