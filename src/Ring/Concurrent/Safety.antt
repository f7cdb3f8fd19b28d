-- ===== src/Ring/Concurrent/Safety.antt =====
-- What holds in every interleaving of a producer and a consumer thread on one ring of
-- include/shm/spsc_ring.hpp.
use low_latency_event_engine.Base.{
  ℕ, ◌+◌, ◌-◌, ◌≤◌, ◌<◌, ◌≡◌, ◌⊎◌, inl, inr, refl, sym, ap, ◌∙◌, arith, true, false, if◌then◌else◌,
  List, [], ◌∷◌, ◌++◌,
}
use mathlib.Core.List.{append-nil}
use low_latency_event_engine.Event.{EventView}
use low_latency_event_engine.Ring.Layout.{Memory}
use low_latency_event_engine.Ring.Setup.{SpscRing}
use low_latency_event_engine.Ring.Ops.{slot_offset, slot_event}
use low_latency_event_engine.Ring.Queue.{drop_first}
use low_latency_event_engine.Ring.Geometry.{slot_offset-disjoint}
use low_latency_event_engine.Ring.Linked.{
  read_position, write_position, IsLinked, event_at, contents, window,
}
use low_latency_event_engine.Ring.Refine.Acquire.{same_slot}
use low_latency_event_engine.Ring.Concurrent.{
  ProducerPc, producer_idle, fills_header, fills_payload, ConsumerPc, consumer_idle, reads_slot,
  Threads, History, no_history, Action, run,
}
use low_latency_event_engine.Ring.Concurrent.Invariant.{
  ProducerAt, ConsumerAt, pending, any, is_closed_error, is_invalid_slot, IsSound,
}
use low_latency_event_engine.Ring.Concurrent.Frames.{threads}
use low_latency_event_engine.Ring.Concurrent.Schedules.{run-IsSound}

-- Two threads that are in no call, on linked handles of an empty ring of which nothing is held.
pub record Starts (p c : SpscRing) (m : Memory) : Type 0 where
  pub linked : IsLinked p c m
  pub empty : contents p m ≡ []
  pub idle : c.acquired ≡ false

abbrev pub started : SpscRing → SpscRing → Memory → Threads
started p c m = threads p c m producer_idle consumer_idle

-- The threads and the history behind a schedule.
abbrev pub after : SpscRing → SpscRing → Memory → List Action → Threads × History
after p c m schedule = run (started p c m) no_history schedule

-- The producer writes the slot of a position.
abbrev pub Fills : ProducerPc → ℕ → Type 0
Fills (fills_header e w') w = w' ≡ w
Fills (fills_payload e w') w = w' ≡ w
Fills other w = ⊥

-- The consumer reads the slot of a position, or the caller may still read its payload.
abbrev pub Uses : ConsumerPc → SpscRing → ℕ → Type 0
Uses (reads_slot r') c r = r' ≡ r
Uses other c r = (c.acquired ≡ true) × (c.acquired_position ≡ r)

module _ (p c : SpscRing) (m : Memory) (start : Starts p c m) (schedule : List Action) where
  start-IsSound : IsSound (started p c m) no_history
  start-IsSound = record {
    linked = start.linked;
    producer_at = tt;
    consumer_at = tt;
    outside = inl refl;
    fifo = ap (λ b. if b then drop_first (contents p m) else contents p m) start.idle ∙ start.empty;
    held = inl start.idle;
    drained = inl refl;
    no_invalid = refl;
  }

  sound : IsSound (after p c m schedule).0 (after p c m schedule).1
  sound = run-IsSound (started p c m) no_history schedule start-IsSound

  -- However the shared accesses of the two threads interleave, from an empty ring on, the events that
  -- `try_acquire` has given out, followed by those that wait, are the events that `try_publish` has
  -- made visible, in order: none is lost, repeated or torn. `InvalidSlot` is never returned, and the
  -- handles stay linked.
  pub interleaving_fifo :
      let (s, h) = after p c m schedule in
      (h.given ++ pending s.producer s.consumer s.memory ≡ h.accepted)
      × (any is_invalid_slot h.refusals ≡ false)
      × IsLinked s.producer s.consumer s.memory
  interleaving_fifo = (sound.fifo, sound.no_invalid, sound.linked)

  -- Once `Closed` has been returned in an interleaving where the creator closes only a producer that is
  -- in no call, the consumer has been given every event that is ever made visible.
  pub interleaving_drained :
      any is_closed_error (after p c m schedule).1.refusals ≡ true
      → let (_, h) = after p c m schedule in h.given ≡ h.accepted
  interleaving_drained said = elim sound.drained [
    | inl no_end ↦ absurd (ground (arith, said, no_end))
    | inr (_, done) ↦
        sym (append-nil h.given) ∙ ap (λ xs. h.given ++ xs) (sym (none_left done)) ∙ sound.fifo
  ]
    where
      s : Threads
      s = (after p c m schedule).0

      h : History
      h = (after p c m schedule).1

      none_left :
          read_position s.memory ≡ write_position s.memory
          → pending s.producer s.consumer s.memory ≡ []
      none_left done =
          let z : write_position s.memory - read_position s.memory ≡ 0 = omega arith in
          let e : contents s.producer s.memory ≡ [] =
            ap (window (event_at s.producer s.memory) (read_position s.memory)) z in
          ground (arith, e)

  -- While the consumer holds an event, its slot shows the event that `try_acquire` gave out last,
  -- whatever the producer has done since: the payload stays valid until the release.
  pub interleaving_held :
      (after p c m schedule).0.consumer.acquired ≡ true
      → let (s, h) = after p c m schedule in
        (before : List EventView) × (h.given
          ≡ before ++ (event_at s.consumer s.memory s.consumer.acquired_position ∷ []))
  interleaving_held busy = elim sound.linked.holds [
    | inl idle ↦ absurd (ground (arith, busy, idle))
    | inr (_, at_oldest, _) ↦ elim sound.held [
      | inl idle ↦ absurd (ground (arith, busy, idle))
      | inr (before, e) ↦ (before, e ∙ ap (λ x. before ++ (x ∷ [])) (shown at_oldest))
    ]
  ]
    where
      s : Threads
      s = (after p c m schedule).0

      shown :
          s.consumer.acquired_position ≡ read_position s.memory
          → event_at s.producer s.memory (read_position s.memory)
            ≡ event_at s.consumer s.memory s.consumer.acquired_position
      shown e =
          ap slot_event (sym (same_slot sound.linked (read_position s.memory)))
          ∙ ap (event_at s.consumer s.memory) (sym e)

filled-IsFree :
    (pc : ProducerPc) (p : SpscRing) (m : Memory) (w : ℕ)
    → ProducerAt pc p m
    → Fills pc w
    → (w ≡ write_position m) × (write_position m < read_position m + p.slot_count)
filled-IsFree producer_idle p m w at f = elim f [ ]
filled-IsFree (ProducerPc.checks_state _) p m w at f = elim f [ ]
filled-IsFree (ProducerPc.checks_room _) p m w at f = elim f [ ]
filled-IsFree (ProducerPc.loads_read_cursor _ _) p m w at f = elim f [ ]
filled-IsFree (ProducerPc.stores_write_cursor _ _) p m w at f = elim f [ ]
filled-IsFree (fills_header e w') p m w at f = (sym f ∙ at.writing.position, at.free)
filled-IsFree (fills_payload e w') p m w (at, _) f = (sym f ∙ at.writing.position, at.free)

used_below :
    (cpc : ConsumerPc) (p c : SpscRing) (m : Memory) (r : ℕ)
    → IsLinked p c m
    → ConsumerAt cpc c m
    → Uses cpc c r
    → (r ≡ read_position m) × (read_position m < write_position m)
used_below consumer_idle p c m r v at u = ground (arith, v.holds, u)
used_below ConsumerPc.loads_own_cursor p c m r v at u = ground (arith, v.holds, u)
used_below (ConsumerPc.loads_state _) p c m r v at u = ground (arith, v.holds, u)
used_below (ConsumerPc.loads_write_cursor _ _) p c m r v at u = ground (arith, v.holds, u)
used_below (reads_slot r') p c m r v (at, known) u =
    (sym u ∙ at.position, omega (arith, v.write_cache))

module _ (p c : SpscRing) (m : Memory) (start : Starts p c m) (schedule : List Action) where
  -- The threads never touch one slot together: in any interleaving, while the producer fills the slot
  -- of position `w`, the slot of any position `r` that the consumer reads or holds does not overlap it.
  pub interleaving_disjoint :
      (w r : ℕ)
      → Fills (after p c m schedule).0.producer_pc w
      → Uses (after p c m schedule).0.consumer_pc (after p c m schedule).0.consumer r
      → let (s, _) = after p c m schedule in
        (slot_offset s.producer r + s.producer.slot_stride ≤ slot_offset s.producer w)
        ⊎ (slot_offset s.producer w + s.producer.slot_stride ≤ slot_offset s.producer r)
  interleaving_disjoint w r f u =
      let (s, h) = after p c m schedule in
      let v = sound p c m start schedule in
      let (at_write, free) = filled-IsFree s.producer_pc s.producer s.memory w v.producer_at f in
      let (at_read, below) =
        used_below s.consumer_pc s.producer s.consumer s.memory r v.linked v.consumer_at u in
      let e : r + (w - r) ≡ w = omega arith in
      rw e at
        (slot_offset-disjoint s.producer v.linked.geometry r (w - r) (omega arith) (omega arith))
