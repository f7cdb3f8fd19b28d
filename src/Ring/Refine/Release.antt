-- ===== src/Ring/Refine/Release.antt =====
-- `release` and `close_publication` of include/shm/spsc_ring.hpp and src/shm/spsc_ring.cpp.
use low_latency_event_engine.Base.{
  ℕ, ◌⊎◌, suc, ◌+◌, ◌<◌, ◌≡◌, inl, inr, ◌∙◌, refl, sym, ap, arith, Bool, true, false, if◌then◌else◌,
  Bool-cases,
}
use low_latency_event_engine.Ring.Layout.{Memory}
use low_latency_event_engine.Ring.Setup.{SpscRing}
use low_latency_event_engine.Ring.Ops.{release, close_publication}
use low_latency_event_engine.Ring.Queue.{Queue}
use low_latency_event_engine.Ring.Queue
use low_latency_event_engine.Ring.Linked.{
  read_position, write_position, IsLinked, window, event_at, contents, queue_of,
}
use low_latency_event_engine.Ring.Refine.Acquire.{contents-eq}

-- The memory and the consumer behind `release`.
abbrev pub released : Memory → Memory
released m = record m {
  header = record m.header {
    consumer = record m.header.consumer { position = read_position m + 1 };
  };
}

abbrev pub idle_again : SpscRing → SpscRing
idle_again c = record c { acquired = false; acquired_position = 0 }

-- The operation behaves as `Queue.release` on the queue of the memory, and keeps the invariant.
abbrev pub ReleaseRefines : SpscRing → SpscRing → Memory → Bool × SpscRing × Memory → Type 0
ReleaseRefines p c m out =
    let (result, c', m') = out in
    let (result', q) = Queue.release (queue_of p c m) in
    (result ≡ result') × (queue_of p c' m' ≡ q) × IsLinked p c' m'

-- The memory with another state.
abbrev pub with_state : Memory → ℕ → Memory
with_state m state = record m {
  header = record m.header { preamble = record m.header.preamble { state = state } };
}

module _ {p c : SpscRing} {m : Memory} (v : IsLinked p c m) where
  pub released-IsLinked :
      read_position m < write_position m → IsLinked p (idle_again c) (released m)
  released-IsLinked h = record {
    p_attached = v.p_attached;
    c_attached = v.c_attached;
    geometry = v.geometry;
    same_count = v.same_count;
    same_stride = v.same_stride;
    same_capacity = v.same_capacity;
    order = omega arith;
    lap = omega (arith, v.lap);
    width = v.width;
    read_cache = omega (arith, v.read_cache);
    write_cache = v.write_cache;
    holds = inl refl;
    state = v.state;
    formatted = v.formatted;
    fitting = λ d lt.
        let z : read_position m + 1 + d ≡ read_position m + suc d = omega arith in
        rw z (v.fitting (suc d) (omega arith));
  }

  pub release-holding :
      c.acquired ≡ true
      → c.acquired_position ≡ read_position m
      → read_position m < write_position m
      → release c m ≡ (true, idle_again c, released m)
  release-holding h e lt = unfold release in ground (arith, v.width)

  pub release-idle : c.acquired ≡ false → release c m ≡ (false, c, m)
  release-idle h = unfold release in ground arith

  pub contents-released :
      read_position m < write_position m → contents p (released m) ≡ Queue.drop_first (contents p m)
  contents-released h =
      ap (window (event_at p m) (read_position m + 1)) (omega arith)
      ∙ sym (ap Queue.drop_first (contents-eq v h))

  -- On linked handles `release` behaves as the queue's: it frees the slot of the held event, and returns false where
  -- nothing is held. It keeps the invariant of the two handles.
  pub release_refines : ReleaseRefines p c m (release c m)
  release_refines = elim v.holds [
    | inl idle ↦ rw (release-idle idle, q_nothing idle) (refl, refl, v)
    | inr (busy, at_oldest, below) ↦
        rw (release-holding busy at_oldest below, q_frees busy)
          (refl, after below, released-IsLinked below)
  ]
    where
      q_nothing : c.acquired ≡ false → Queue.release (queue_of p c m) ≡ (false, queue_of p c m)
      q_nothing h = unfold Queue.release in ground arith

      q_frees :
          c.acquired ≡ true
          → Queue.release (queue_of p c m) ≡ (
            true,
            record (queue_of p c m) { items = Queue.drop_first (contents p m); held = false },
          )
      q_frees h = unfold Queue.release in ground arith

      after :
          read_position m < write_position m
          → queue_of p (idle_again c) (released m)
            ≡ record (queue_of p c m) { items = Queue.drop_first (contents p m); held = false }
      after h i = record (queue_of p c m) { items = contents-released h i; held = false }

  -- On linked handles `close_publication` closes the queue for the handle that initialized the ring
  -- and keeps its events; for any other handle it returns false and leaves the memory as it was. In
  -- both cases it writes nothing but the state.
  pub close_publication_refines :
      (owner : SpscRing)
      → let (result, m') = close_publication owner m in
        (result ≡ owner.initializer)
        × (queue_of p c m'
            ≡ (if owner.initializer then Queue.close (queue_of p c m) else queue_of p c m))
        × IsLinked p c m'
        × ((owner.initializer ≡ true) ⊎ (m' ≡ m))
        × (m' ≡ with_state m m'.header.preamble.state)
  unfolding close_publication Queue.close
  close_publication_refines owner = elim (Bool-cases owner.initializer) [
    | inl own ↦ rw own (refl, refl, shut, inl refl, refl)
    | inr other ↦ rw other (refl, refl, v, inr refl, refl)
  ]
    where
      shut : IsLinked p c (record m {
        header = record m.header { preamble = record m.header.preamble { state = 3 } };
      })
      shut = record {
        p_attached = v.p_attached;
        c_attached = v.c_attached;
        geometry = v.geometry;
        same_count = v.same_count;
        same_stride = v.same_stride;
        same_capacity = v.same_capacity;
        order = v.order;
        lap = v.lap;
        width = v.width;
        read_cache = v.read_cache;
        write_cache = v.write_cache;
        holds = v.holds;
        state = inr refl;
        formatted = v.formatted;
        fitting = v.fitting;
      }
