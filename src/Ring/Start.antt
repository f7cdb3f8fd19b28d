-- ===== src/Ring/Start.antt =====
-- `initialize` and `attach` of src/shm/spsc_ring.cpp: a new ring is an empty queue between its
-- creator and an attached handle.
mod Slots
pub mod Success
use low_latency_event_engine.Base.{
  ℕ, zero, suc, ◌+◌, ◌*◌, ◌/◌, ◌%◌, ◌≤◌, ◌<◌, ◌≡◌, ◌≢◌, inl, ◌∙◌, refl, ap, arith, [], length, true,
  false, sub64, mul64, u32, Expected, value, eq→==, ne→==, eq→!=, replicate,
}
use native.Mathlib.Decide.{ℕ_discrete}
use native.Mathlib.Nat.{mul-div_cancel, mod-lt, mod-eq_of_lt}
use low_latency_event_engine.Ring.Layout.{RingPreamble, Slot, Memory, put_slot, ring_magic}
use low_latency_event_engine.Ring.Setup.{
  RingConfig, RingError, SpscRing, new_handle, invalid_memory, invalid_layout, validate_state,
  fill_preamble, new_cursor, new_slot_header, construct_slots, initialize, attach_layout, attach,
}
use low_latency_event_engine.Ring.Ops.{slot_offset}
use low_latency_event_engine.Ring.Geometry.{slot_offset_lem, mul-lt}
use low_latency_event_engine.Ring.Sizes.{
  HasWidths, IsAllowed, stride, ring_size, ring_size-lt, IsAllowed-IsGeometry,
  required_bytes-allowed,
}
use low_latency_event_engine.Ring.Queue.{Queue}
use low_latency_event_engine.Ring.Linked.{IsLinked, IsFormatted, queue_of}
use Slots.{construct_slots-bytes, construct_slots-header}

-- Memory for a ring: it starts at an aligned address, has the exact size, and every slot's storage
-- reaches up to the next slot.
pub record IsRoom (memory : Memory) (config : RingConfig) : Type 0 where
  pub nonnull : memory.address ≢ 0
  pub aligned : memory.address % 128 ≡ 0
  pub exact : memory.size ≡ ring_size config
  pub storage :
      (i : ℕ)
      → i < config.slot_count
      → 32 + length (memory.slots (stride config * i)).bytes ≡ stride config

abbrev pub empty_queue : Queue
empty_queue = record { items = []; held = false; is_closed = false; published = 0 }

-- What a successful setup leaves: the creator `p`, the attached handle `c` and the memory.
pub record StartsEmpty (p c : SpscRing) (out : Expected SpscRing RingError × Memory) : Type 0 where
  pub initialized : out.0 ≡ value p
  pub attached : attach out.1 ≡ value c
  pub linked : IsLinked p c out.1
  pub empty : queue_of p c out.1 ≡ empty_queue
  pub owner : p.initializer ≡ true
  pub guest : c.initializer ≡ false

module _ (memory : Memory) (config : RingConfig) (id : ℕ) (w : HasWidths config)
    (a : IsAllowed config) where
  abbrev creator : SpscRing
  creator = record {
    is_attached = true;
    slot_count = config.slot_count;
    slot_stride = stride config;
    slot_payload_capacity = config.slot_payload_capacity;
    cached_read_position = 0;
    cached_write_position = 0;
    acquired_position = 0;
    acquired = false;
    initializer = true;
  }

  -- The preamble that `initialize` writes, once it is ready.
  abbrev preamble : RingPreamble
  preamble = record {
    magic = ring_magic;
    layout_version = 1;
    header_bytes = 192;
    segment_bytes = ring_size config;
    slot_count = config.slot_count;
    slot_stride = stride config;
    slot_payload_capacity = config.slot_payload_capacity;
    reserved = 0;
    instance_id = id;
    state = 2;
    reserved_bytes = replicate 20 0;
  }

  abbrev ready_memory : Memory
  ready_memory = record memory {
    header = record { preamble = preamble; producer = new_cursor; consumer = new_cursor };
    slots = construct_slots config.slot_count 0 (stride config) memory.slots;
  }

  stride_lem : sub64 (ring_size config) 192 / config.slot_count ≡ stride config
  stride_lem =
      ap (λ (t : ℕ). t / config.slot_count) behind
      ∙ mul-div_cancel (stride config) (omega (arith, a.at_least))
    where
      behind : sub64 (ring_size config) 192 ≡ stride config * config.slot_count
      behind = omega (arith, ring_size-lt config w a.stride_width)

  filled : fill_preamble (ring_size config) config id ≡ record preamble { state = 1 }
  unfolding fill_preamble
  filled i = record preamble {
    state = 1;
    slot_stride = (ap u32 stride_lem ∙ mod-eq_of_lt a.stride_width) i;
  }

  valid_memory : IsRoom memory config → invalid_memory memory ≡ false
  unfolding invalid_memory
  valid_memory room = ground (arith, room.nonnull, room.aligned, room.exact)

  initialize-creator :
      IsRoom memory config → id ≢ 0 → initialize memory config id ≡ (value creator, ready_memory)
  unfolding initialize new_handle
  initialize-creator room nonzero = rw (
    ne→== id 0 nonzero,
    required_bytes-allowed config w a,
    valid_memory room,
    eq→!= memory.size (ring_size config) room.exact,
    filled,
  )

  attach-ready :
      IsRoom memory config
      → id ≢ 0
      → attach ready_memory ≡ value (record creator { initializer = false })
  unfolding attach attach_layout validate_state invalid_layout new_handle invalid_memory
  attach-ready room nonzero = rw (
    valid_memory room,
    ne→== id 0 nonzero,
    required_bytes-allowed config w a,
    stride_lem,
    eq→!= (stride config) (stride config) refl,
    eq→!= (ring_size config) (ring_size config) refl,
    eq→!= memory.size (ring_size config) room.exact,
  )

  ready-IsFormatted :
      IsRoom memory config
      → (position : ℕ)
      → IsFormatted (stride config) (ready_memory.slots (slot_offset creator position))
  ready-IsFormatted room position =
      rw (slot_offset_lem creator (IsAllowed-IsGeometry config w a) position) (
        formatted (position % config.slot_count)
          (mod-lt position {m = config.slot_count} (omega (arith, a.at_least))))
    where
      constructed :
          (i : ℕ)
          → i < config.slot_count
          → (ready_memory.slots (stride config * i)).header ≡ new_slot_header
      constructed i h = rw offset at (
          construct_slots-header config.slot_count 0 (stride config) memory.slots i (omega arith)
            (omega arith))
        where
          offset : mul64 i (stride config) ≡ stride config * i
          offset =
              mod-eq_of_lt (mul-lt i (stride config) (omega (arith, w.count_width)) a.stride_width)
              ∙ omega arith

      formatted :
          (i : ℕ)
          → i < config.slot_count
          → IsFormatted (stride config) (ready_memory.slots (stride config * i))
      formatted i h = record {
        storage =
            ap (λ b. 32 + length b)
              (construct_slots-bytes config.slot_count 0 (stride config) memory.slots
                (stride config * i))
            ∙ room.storage i h;
        reserved0 = ap (λ x. x.reserved0) (constructed i h);
        reserved1 = ap (λ x. x.reserved1) (constructed i h);
      }

  ready-IsLinked :
      IsRoom memory config → IsLinked creator (record creator { initializer = false }) ready_memory
  ready-IsLinked room = record {
    p_attached = refl;
    c_attached = refl;
    geometry = IsAllowed-IsGeometry config w a;
    same_count = refl;
    same_stride = refl;
    same_capacity = refl;
    order = omega arith;
    lap = omega arith;
    width = omega arith;
    read_cache = omega arith;
    write_cache = omega arith;
    holds = inl refl;
    state = inl refl;
    formatted = ready-IsFormatted room;
    fitting = λ d h. absurd (omega arith);
  }

  -- For an allowed configuration, a nonzero instance id and memory of the exact size, `initialize`
  -- succeeds, `attach` then succeeds on the memory that it leaves, and the two handles are linked
  -- through an empty, open queue. Only the creator's handle may close publication.
  pub initialize-attach :
      IsRoom memory config
      → id ≢ 0
      → (p : SpscRing) × (c : SpscRing) × StartsEmpty p c (initialize memory config id)
  initialize-attach room nonzero = (
    creator,
    record creator { initializer = false },
    rw (initialize-creator room nonzero) (record {
      initialized = refl;
      attached = attach-ready room nonzero;
      linked = ready-IsLinked room;
      empty = refl;
      owner = refl;
      guest = refl;
    }),
  )
