-- ===== src/Ring/Concurrent/Frames.antt =====
-- What single changes to the shared state of include/shm/spsc_ring.hpp leave of the invariant.
use low_latency_event_engine.Base.{
  ℕ, ◌+◌, ◌-◌, ◌<◌, ◌≡◌, ◌⊎◌, inl, inr, refl, sym, ap, ◌∙◌, arith, true, if◌then◌else◌, List, [],
  ◌∷◌, ◌++◌,
}
use mathlib.Core.List.{append_assoc}
use low_latency_event_engine.Event.{EventView}
use low_latency_event_engine.Ring.Layout.{RingState, state_value, Slot, Memory}
use low_latency_event_engine.Ring.Setup.{SpscRing}
use low_latency_event_engine.Ring.Ops.{slot_offset, slot_event}
use low_latency_event_engine.Ring.Queue.{drop_first}
use low_latency_event_engine.Ring.Linked.{
  read_position, write_position, IsFormatted, event_at, contents, window,
}
use low_latency_event_engine.Ring.Refine.Write.{
  replaced, advanced, slot_at-replaced_ne, contents-replaced, replaced-IsLinked, contents-advanced,
  advanced-IsLinked,
}
use low_latency_event_engine.Ring.Refine.Acquire.{contents-eq}
use low_latency_event_engine.Ring.Refine.Publish.{refreshed, refreshed-IsLinked}
use low_latency_event_engine.Ring.Concurrent.{
  ProducerPc, producer_idle, stores_write_cursor, ConsumerPc, consumer_idle, loads_own_cursor,
  loads_state, loads_write_cursor, reads_slot, Threads, History,
}
use low_latency_event_engine.Ring.Concurrent.Invariant.{
  IsFree, ProducerAt, ConsumerAt, is_outside, pending, IsSound,
}

abbrev pub threads : SpscRing → SpscRing → Memory → ProducerPc → ConsumerPc → Threads
threads p c m pc cpc = record {
  producer = p;
  consumer = c;
  memory = m;
  producer_pc = pc;
  consumer_pc = cpc;
}

abbrev pub Outside : ProducerPc → Memory → Type 0
Outside pc m = (is_outside pc ≡ true) ⊎ (m.header.preamble.state ≡ state_value RingState.ready)

-- What the consumer has established rests on its own cursor and the state alone.
pub ConsumerAt-frame :
    (cpc : ConsumerPc) (c : SpscRing) (m m' : Memory)
    → read_position m' ≡ read_position m
    → m'.header.preamble.state ≡ m.header.preamble.state
    → ConsumerAt cpc c m
    → ConsumerAt cpc c m'
ConsumerAt-frame consumer_idle c m m' e q at = tt
ConsumerAt-frame loads_own_cursor c m m' e q at = tt
ConsumerAt-frame (loads_state r) c m m' e q at = record {
  position = at.position ∙ sym e;
  idle = at.idle;
}
ConsumerAt-frame (loads_write_cursor r state) c m m' e q (at, seen) =
    (record { position = at.position ∙ sym e; idle = at.idle }, ground (arith, seen, q))
ConsumerAt-frame (reads_slot r) c m m' e q (at, below) =
    (record { position = at.position ∙ sym e; idle = at.idle }, omega arith)

module _ {p c : SpscRing} {m : Memory} {pc : ProducerPc} {cpc : ConsumerPc} {h : History}
    (v : IsSound (threads p c m pc cpc) h) where
  -- Only the program counter moves.
  pub moved :
      (pc' : ProducerPc) → ProducerAt pc' p m → Outside pc' m → IsSound (threads p c m pc' cpc) h
  moved pc' at out = record {
    linked = v.linked;
    producer_at = at;
    consumer_at = v.consumer_at;
    outside = out;
    fifo = v.fifo;
    held = v.held;
    drained = v.drained;
    no_invalid = v.no_invalid;
  }

  -- The producer looks at the consumer's cursor.
  pub refreshed-IsSound :
      ProducerAt pc (refreshed p m) m → IsSound (threads (refreshed p m) c m pc cpc) h
  unfolding slot_offset
  refreshed-IsSound at = record {
    linked = refreshed-IsLinked v.linked;
    producer_at = at;
    consumer_at = v.consumer_at;
    outside = v.outside;
    fifo = v.fifo;
    held = v.held;
    drained = v.drained;
    no_invalid = v.no_invalid;
  }

  -- The slot of the write position is written, and nobody else sees it.
  pub replaced-IsSound :
      (s : Slot) (pc' : ProducerPc)
      → write_position m < read_position m + p.slot_count
      → IsFormatted p.slot_stride s
      → ProducerAt pc' p (replaced p m s)
      → Outside pc' m
      → IsSound (threads p c (replaced p m s) pc' cpc) h
  replaced-IsSound s pc' free f at out = record {
    linked = replaced-IsLinked v.linked free s f;
    producer_at = at;
    consumer_at = ConsumerAt-frame cpc c m (replaced p m s) refl refl v.consumer_at;
    outside = out;
    fifo =
        ap (λ xs. h.given ++ (if c.acquired then drop_first xs else xs))
          (contents-replaced v.linked free s)
        ∙ v.fifo;
    held = elim v.linked.holds [
      | inl idle ↦ inl idle
      | inr (_, _, below) ↦ elim v.held [
        | inl idle ↦ inl idle
        | inr (before, e) ↦ inr (before, e ∙ sym (ap (λ x. before ++ (x ∷ [])) (same below)))
      ]
    ];
    drained = v.drained;
    no_invalid = v.no_invalid;
  }
    where
      same :
          read_position m < write_position m
          → event_at p (replaced p m s) (read_position m) ≡ event_at p m (read_position m)
      same below =
          let z : read_position m + 0 ≡ read_position m = omega arith in
          rw z at (ap slot_event (slot_at-replaced_ne v.linked free s 0 (omega arith)))

append_snoc :
    (given xs : List EventView) (e : EventView)
    → given ++ (xs ++ (e ∷ [])) ≡ (given ++ xs) ++ (e ∷ [])
append_snoc given xs e = sym (append_assoc given xs (e ∷ []))

drop_first-snoc :
    (x : EventView) (xs ys : List EventView) (e : EventView)
    → ys ≡ x ∷ xs
    → drop_first (ys ++ (e ∷ [])) ≡ drop_first ys ++ (e ∷ [])
drop_first-snoc x xs ys e eq = rw eq refl

module _ {p c : SpscRing} {m : Memory} {cpc : ConsumerPc} {h : History} (e : EventView) (w : ℕ)
    (v : IsSound (threads p c m (stores_write_cursor e w) cpc) h) where
  abbrev free : IsFree e w p m
  free = v.producer_at.0

  pending-advanced : pending p c (advanced m) ≡ pending p c m ++ (e ∷ [])
  pending-advanced = elim v.linked.holds [
    | inl idle ↦ rw idle grown
    | inr (busy, _, below) ↦ rw busy (
        ap drop_first grown
        ∙ drop_first-snoc (event_at p m (read_position m))
            (window (event_at p m) (read_position m + 1) (write_position m - read_position m - 1))
            (contents p m) e (contents-eq v.linked below))
  ]
    where
      grown : contents p (advanced m) ≡ contents p m ++ (e ∷ [])
      grown =
          contents-advanced v.linked free.free free.writing.more
          ∙ ap (λ x. contents p m ++ (x ∷ [])) v.producer_at.1

  -- The store makes the event visible.
  pub stored-IsSound :
      IsSound
        (threads p c (advanced m) producer_idle cpc)
        (record h { accepted = h.accepted ++ (e ∷ []) })
  stored-IsSound = record {
    linked = advanced-IsLinked v.linked free.free free.writing.more v.producer_at.2;
    producer_at = tt;
    consumer_at = ConsumerAt-frame cpc c m (advanced m) refl refl v.consumer_at;
    outside = inl refl;
    fifo =
        ap (λ xs. h.given ++ xs) pending-advanced
        ∙ append_snoc h.given (pending p c m) e
        ∙ ap (λ xs. xs ++ (e ∷ [])) v.fifo;
    held = v.held;
    drained = ground (arith, v.drained, v.outside);
    no_invalid = v.no_invalid;
  }
