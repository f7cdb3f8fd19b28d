-- ===== src/Ring/Samples.antt =====
-- A ring of two slots for payloads of up to four bytes, as the creator and a guest hold it.
use low_latency_event_engine.Base.{Bool, true, false, inl, refl, arith, replicate}
use low_latency_event_engine.Ring.Layout.{Slot, Memory, ring_magic}
use low_latency_event_engine.Ring.Setup.{SpscRing, new_cursor, new_slot_header}
use low_latency_event_engine.Ring.Linked.{IsLinked}

abbrev pub blank : Slot
blank = record { header = new_slot_header; bytes = replicate 32 0 }

abbrev pub handle : Bool → SpscRing
handle own = record {
  is_attached = true;
  slot_count = 2;
  slot_stride = 64;
  slot_payload_capacity = 4;
  cached_read_position = 0;
  cached_write_position = 0;
  acquired_position = 0;
  acquired = false;
  initializer = own;
}

abbrev pub ring : Memory
ring = record {
  address = 4096;
  size = 320;
  header = record {
    preamble = record {
      magic = ring_magic;
      layout_version = 1;
      header_bytes = 192;
      segment_bytes = 320;
      slot_count = 2;
      slot_stride = 64;
      slot_payload_capacity = 4;
      reserved = 0;
      instance_id = 7;
      state = 2;
      reserved_bytes = replicate 20 0;
    };
    producer = new_cursor;
    consumer = new_cursor;
  };
  slots = λ _. blank;
}

pub ring-IsLinked : IsLinked (handle true) (handle false) ring
ring-IsLinked = record {
  p_attached = refl;
  c_attached = refl;
  geometry = record {
    power = (1, refl);
    at_least = omega arith;
    count_width = omega arith;
    stride_width = omega arith;
    room = omega arith;
  };
  same_count = refl;
  same_stride = refl;
  same_capacity = refl;
  order = omega arith;
  lap = omega arith;
  width = omega arith;
  read_cache = omega arith;
  write_cache = omega arith;
  holds = inl refl;
  state = inl refl;
  formatted = λ position. record { storage = refl; reserved0 = refl; reserved1 = refl };
  fitting = λ d h. absurd (omega arith);
}
