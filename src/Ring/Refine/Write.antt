-- ===== src/Ring/Refine/Write.antt =====
-- The slot that `try_publish` of include/shm/spsc_ring.hpp writes, and the memory behind the write.
use low_latency_event_engine.Base.{
  ℕ, suc, ◌+◌, ◌-◌, ◌^◌, ◌≤◌, ◌<◌, ◌≡◌, ◌≢◌, ◌∙◌, ap, ap₂, arith, [], ◌∷◌, ◌++◌, length, take,
  copy_at, take-copy_at, length-copy_at, add64, ne→==, eq→==,
}
use native.Mathlib.Decide.{ℕ_discrete, dec_lt}
use low_latency_event_engine.Event.{EventView}
use low_latency_event_engine.Ring.Layout.{Slot, Memory, put_slot}
use low_latency_event_engine.Ring.Setup.{SpscRing}
use low_latency_event_engine.Ring.Ops.{slot_offset, slot_event, fill_slot, fill_slot_header}
use low_latency_event_engine.Ring.Geometry.{slot_offset-ne}
use low_latency_event_engine.Ring.Linked.{
  read_position, write_position, slot_at, IsFormatted, IsLinked, window, window_ext, window_snoc,
  event_at, contents,
}

-- A filled slot shows the event that was put into it.
slot_event-fill_slot :
    (s : Slot) (e : EventView)
    → length e.payload ≤ length s.bytes
    → length e.payload < 2 ^ 32
    → slot_event (fill_slot s e) ≡ e
unfolding slot_event fill_slot fill_slot_header
slot_event-fill_slot s e room small =
    ap (λ bytes. record e { payload = bytes })
      (ap (λ n. take n (copy_at s.bytes 0 e.payload)) (omega arith)
        ∙ take-copy_at s.bytes e.payload room)

put_slot_self : (slots : ℕ → Slot) (k : ℕ) (s : Slot) → put_slot slots k s k ≡ s
put_slot_self slots k s = ground arith

put_slot_ne : (slots : ℕ → Slot) (k j : ℕ) (s : Slot) → k ≢ j → put_slot slots k s j ≡ slots j
put_slot_ne slots k j s ne = ground arith

put_slot_all :
    (P : Slot → Type 0) (slots : ℕ → Slot) (k : ℕ) (s : Slot)
    → P s
    → (j : ℕ) → P (slots j)
    → P (put_slot slots k s j)
put_slot_all P slots k s new j old = elim (ℕ_discrete k j) [
  | yes e ↦ rw (eq→== k j e) new
  | no ne ↦ rw (ne→== k j ne) old
]

payload_length-fill_slot :
    (s : Slot) (e : EventView) {capacity : ℕ}
    → length e.payload ≤ capacity
    → length e.payload < 2 ^ 32
    → (fill_slot s e).header.payload_length ≤ capacity
unfolding fill_slot fill_slot_header
payload_length-fill_slot s e room small = omega arith

fill_slot-IsFormatted :
    {stride : ℕ} (s : Slot) (e : EventView)
    → IsFormatted stride s
    → IsFormatted stride (fill_slot s e)
unfolding fill_slot fill_slot_header
fill_slot-IsFormatted s e f = record {
  storage = ap (λ n. 32 + n) (length-copy_at s.bytes 0 e.payload) ∙ f.storage;
  reserved0 = f.reserved0;
  reserved1 = f.reserved1;
}

-- The memory with another slot at the write position.
abbrev pub replaced : SpscRing → Memory → Slot → Memory
replaced p m s = record m { slots = put_slot m.slots (slot_offset p (write_position m)) s }

-- The memory with the write cursor one further.
abbrev pub advanced : Memory → Memory
advanced m = record m {
  header = record m.header {
    producer = record m.header.producer { position = add64 (write_position m) 1 };
  };
}

-- The slot of the write position belongs to the producer, as long as the ring is not full.
module _ {p c : SpscRing} {m : Memory} (v : IsLinked p c m)
    (free : write_position m < read_position m + p.slot_count) (s : Slot) where
  pub slot_at-replaced_ne :
      (d : ℕ)
      → read_position m + d < write_position m
      → slot_at p (replaced p m s) (read_position m + d) ≡ slot_at p m (read_position m + d)
  slot_at-replaced_ne d h =
      put_slot_ne m.slots (slot_offset p (write_position m)) (slot_offset p (read_position m + d)) s
        (λ eq.
          slot_offset-ne p v.geometry (read_position m + d)
            (write_position m - (read_position m + d)) (omega arith) (omega arith)
            (ap (slot_offset p) (omega arith) ∙ eq))

  pub slot_at-replaced_self : slot_at p (replaced p m s) (write_position m) ≡ s
  slot_at-replaced_self = put_slot_self m.slots (slot_offset p (write_position m)) s

  pub contents-replaced : contents p (replaced p m s) ≡ contents p m
  contents-replaced =
      window_ext (event_at p (replaced p m s)) (event_at p m) (read_position m)
        (write_position m - read_position m)
        (λ d h. ap slot_event (slot_at-replaced_ne d (omega arith)))

  pub replaced-IsLinked : IsFormatted p.slot_stride s → IsLinked p c (replaced p m s)
  replaced-IsLinked f = record {
    p_attached = v.p_attached;
    c_attached = v.c_attached;
    geometry = v.geometry;
    same_count = v.same_count;
    same_stride = v.same_stride;
    same_capacity = v.same_capacity;
    order = v.order;
    lap = v.lap;
    width = v.width;
    read_cache = v.read_cache;
    write_cache = v.write_cache;
    holds = v.holds;
    state = v.state;
    formatted = λ position.
        put_slot_all (IsFormatted p.slot_stride) m.slots (slot_offset p (write_position m)) s f
          (slot_offset p position) (v.formatted position);
    fitting = λ d h. rw (slot_at-replaced_ne d h) (v.fitting d h);
  }

-- The producer's store makes the slot of the write position visible.
module _ {p c : SpscRing} {m : Memory} (v : IsLinked p c m)
    (free : write_position m < read_position m + p.slot_count)
    (more : write_position m + 1 < 2 ^ 64) where
  pub write_position-advanced : add64 (write_position m) 1 ≡ write_position m + 1
  write_position-advanced = omega arith

  pub contents-advanced :
      contents p (advanced m) ≡ contents p m ++ (event_at p m (write_position m) ∷ [])
  contents-advanced =
      ap (window (event_at p m) (read_position m)) length_eq
      ∙ window_snoc (event_at p m) (read_position m) (write_position m - read_position m)
      ∙ ap (λ x. contents p m ++ (event_at p m x ∷ [])) (omega (arith, v.order))
    where
      length_eq :
          add64 (write_position m) 1 - read_position m ≡ suc (write_position m - read_position m)
      length_eq = omega (arith, v.order)

  pub advanced-IsLinked :
      (slot_at p m (write_position m)).header.payload_length ≤ p.slot_payload_capacity
      → IsLinked p c (advanced m)
  advanced-IsLinked fits = record {
    p_attached = v.p_attached;
    c_attached = v.c_attached;
    geometry = v.geometry;
    same_count = v.same_count;
    same_stride = v.same_stride;
    same_capacity = v.same_capacity;
    read_cache = v.read_cache;
    state = v.state;
    order = omega (arith, v.order);
    lap = omega arith;
    width = omega arith;
    write_cache = omega (arith, v.write_cache);
    holds = ground (arith, v.holds, v.order);
    formatted = v.formatted;
    fitting = λ d h. elim (dec_lt (read_position m + d) (write_position m)) [
      | yes old ↦ v.fitting d old
      | no new ↦ at_end (read_position m + d) (omega arith)
    ];
  }
    where
      at_end :
          (position : ℕ)
          → position ≡ write_position m
          → (slot_at p m position).header.payload_length ≤ p.slot_payload_capacity
      at_end position eq = rw eq fits

-- The memory behind the last part of `try_publish`.
abbrev pub written : SpscRing → Memory → EventView → Memory
written p m e = advanced (replaced p m (fill_slot (slot_at p m (write_position m)) e))

module _ {p c : SpscRing} {m : Memory} (e : EventView) (v : IsLinked p c m)
    (free : write_position m < read_position m + p.slot_count)
    (more : write_position m + 1 < 2 ^ 64) (room : length e.payload ≤ p.slot_payload_capacity) where
  small : length e.payload < 2 ^ 32
  small = omega (arith, v.geometry.room, v.geometry.stride_width)

  abbrev filled : Slot
  filled = fill_slot (slot_at p m (write_position m)) e

  replaced_v : IsLinked p c (replaced p m filled)
  replaced_v =
      replaced-IsLinked v free filled
        (fill_slot-IsFormatted (slot_at p m (write_position m)) e (v.formatted (write_position m)))

  pub contents-written : contents p (written p m e) ≡ contents p m ++ (e ∷ [])
  contents-written =
      contents-advanced replaced_v free more
      ∙ ap₂ (λ xs x. xs ++ (x ∷ [])) (contents-replaced v free filled)
          (ap slot_event (slot_at-replaced_self v free filled)
            ∙ slot_event-fill_slot (slot_at p m (write_position m)) e
                (omega (arith, (v.formatted (write_position m)).storage, v.geometry.room)) small)

  pub written-IsLinked : IsLinked p c (written p m e)
  written-IsLinked = advanced-IsLinked replaced_v free more (
      rw (slot_at-replaced_self v free filled)
        (payload_length-fill_slot (slot_at p m (write_position m)) e room small))
