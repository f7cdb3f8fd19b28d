-- ===== src/Ring/Linked.antt =====
-- A producer handle and a consumer handle on one ring memory: the invariant, and the queue that
-- the memory holds.
use low_latency_event_engine.Base.{
  ℕ, zero, suc, ◌+◌, ◌-◌, ◌^◌, ◌≤◌, ◌<◌, ◌≡◌, ◌⊎◌, ◌∙◌, refl, sym, ap, ap₂, arith, List, [], ◌∷◌,
  ◌++◌, length, true, false, ◌==◌,
}
use low_latency_event_engine.Event.{EventView}
use low_latency_event_engine.Ring.Layout.{RingState, state_value, Slot, Memory}
use low_latency_event_engine.Ring.Setup.{SpscRing}
use low_latency_event_engine.Ring.Ops.{slot_offset, slot_event}
use low_latency_event_engine.Ring.Geometry.{HasGeometry}
use low_latency_event_engine.Ring.Queue.{Queue}

abbrev pub read_position : Memory → ℕ
read_position m = m.header.consumer.position

abbrev pub write_position : Memory → ℕ
write_position m = m.header.producer.position

-- The slot of a position.
abbrev pub slot_at : SpscRing → Memory → ℕ → Slot
slot_at r m position = m.slots (slot_offset r position)

-- A slot has storage up to the next one, and zero reserved words.
pub record IsFormatted (stride : ℕ) (s : Slot) : Type 0 where
  pub storage : 32 + length s.bytes ≡ stride
  pub reserved0 : s.header.reserved0 ≡ 0
  pub reserved1 : s.header.reserved1 ≡ 0

-- What the consumer holds, if anything, is the oldest event.
abbrev pub HoldsOldest : SpscRing → Memory → Type 0
HoldsOldest c m =
    (c.acquired ≡ false)
    ⊎ ((c.acquired ≡ true)
        × (c.acquired_position ≡ read_position m)
        × (read_position m < write_position m))

pub record IsLinked (p c : SpscRing) (m : Memory) : Type 0 where
  pub p_attached : p.is_attached ≡ true
  pub c_attached : c.is_attached ≡ true
  pub geometry : HasGeometry p
  pub same_count : c.slot_count ≡ p.slot_count
  pub same_stride : c.slot_stride ≡ p.slot_stride
  pub same_capacity : c.slot_payload_capacity ≡ p.slot_payload_capacity
  pub order : read_position m ≤ write_position m
  pub lap : write_position m ≤ read_position m + p.slot_count
  pub width : write_position m < 2 ^ 64
  pub read_cache : p.cached_read_position ≤ read_position m
  pub write_cache : c.cached_write_position ≤ write_position m
  pub holds : HoldsOldest c m
  pub state :
      (m.header.preamble.state ≡ state_value RingState.ready)
      ⊎ (m.header.preamble.state ≡ state_value RingState.closed)
  pub formatted : (position : ℕ) → IsFormatted p.slot_stride (slot_at p m position)
  pub fitting :
      (d : ℕ)
      → read_position m + d < write_position m
      → (slot_at p m (read_position m + d)).header.payload_length ≤ p.slot_payload_capacity

-- The values of `f` at `n` positions from `start` on.
abbrev pub window {ℓ} : {A : Type ℓ} → (ℕ → A) → ℕ → ℕ → List A
window f start zero = []
window f start (suc n) = f start ∷ window f (start + 1) n

module _ {ℓ} {A : Type ℓ} where
  pub length-window : (f : ℕ → A) (start n : ℕ) → length (window f start n) ≡ n
  length-window f start zero = refl
  length-window f start (suc n) = ap suc (length-window f (start + 1) n)

  shift : (f : ℕ → A) (start d : ℕ) → f (start + 1 + d) ≡ f (start + suc d)
  shift f start d = ap f (omega arith)

  pub window_ext :
      (f g : ℕ → A) (start n : ℕ)
      → ((d : ℕ) → d < n → f (start + d) ≡ g (start + d))
      → window f start n ≡ window g start n
  window_ext f g start zero h = refl
  window_ext f g start (suc n) h = ap₂ ◌∷◌ (at_start (h 0 (omega arith))) (
      window_ext f g (start + 1) n
        (λ d lt. shift f start d ∙ h (suc d) (omega arith) ∙ sym (shift g start d)))
    where
      at_start : f (start + 0) ≡ g (start + 0) → f start ≡ g start
      at_start e = let z : start + 0 ≡ start = omega arith in rw z at e

  pub window_snoc :
      (f : ℕ → A) (start n : ℕ) → window f start (suc n) ≡ window f start n ++ (f (start + n) ∷ [])
  window_snoc f start zero = ap (λ k. f k ∷ []) (omega arith)
  window_snoc f start (suc n) =
      ap (λ t. f start ∷ t)
        (window_snoc f (start + 1) n
          ∙ ap (λ a. window f (start + 1) n ++ (a ∷ [])) (shift f start n))

  pub window-suc :
      (f : ℕ → A) (start n : ℕ) → 0 < n → window f start n ≡ f start ∷ window f (start + 1) (n - 1)
  window-suc f start zero h = absurd (omega arith)
  window-suc f start (suc n) h = ap (λ k. f start ∷ window f (start + 1) k) (omega arith)

-- The event that the slot of a position shows.
abbrev pub event_at : SpscRing → Memory → ℕ → EventView
event_at r m position = slot_event (slot_at r m position)

-- The unread events, oldest first.
abbrev pub contents : SpscRing → Memory → List EventView
contents r m = window (event_at r m) (read_position m) (write_position m - read_position m)

-- The queue that two handles and the memory stand for.
abbrev pub queue_of : SpscRing → SpscRing → Memory → Queue
queue_of p c m = record {
  items = contents p m;
  held = c.acquired;
  is_closed = m.header.preamble.state == state_value RingState.closed;
  published = write_position m;
}
