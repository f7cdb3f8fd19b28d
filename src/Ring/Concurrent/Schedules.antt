-- ===== src/Ring/Concurrent/Schedules.antt =====
-- Any interleaving of the two threads of include/shm/spsc_ring.hpp keeps the invariant.
use low_latency_event_engine.Base.{
  ℕ, ◌<◌, ◌≡◌, inl, inr, refl, sym, ap, ◌∙◌, arith, true, false, if◌then◌else◌, List, [], ◌∷◌, ◌++◌,
  Bool-cases,
}
use low_latency_event_engine.Event.{EventView}
use low_latency_event_engine.Ring.Layout.{RingState, state_value, Memory}
use low_latency_event_engine.Ring.Setup.{SpscRing}
use low_latency_event_engine.Ring.Ops.{release, close_publication}
use low_latency_event_engine.Ring.Queue.{drop_first}
use low_latency_event_engine.Ring.Linked.{read_position, write_position, contents}
use low_latency_event_engine.Ring.Refine.Release.{
  idle_again, released, released-IsLinked, release-holding, release-idle, contents-released,
  close_publication_refines,
}
use low_latency_event_engine.Ring.Concurrent.{
  ProducerPc, producer_idle, checks_state, checks_room, loads_read_cursor, fills_header,
  fills_payload, stores_write_cursor, ConsumerPc, consumer_idle, loads_own_cursor, loads_state,
  loads_write_cursor, reads_slot, Threads, History, Action, call_publish, produce, call_acquire,
  consume, call_release, call_close, step, run,
}
use low_latency_event_engine.Ring.Concurrent.Invariant.{IsFree, ProducerAt, ConsumerAt, IsSound}
use low_latency_event_engine.Ring.Concurrent.Frames.{threads, moved}
use low_latency_event_engine.Ring.Concurrent.Producing.{produce-IsSound}
use low_latency_event_engine.Ring.Concurrent.Consuming.{consume-IsSound}
use low_latency_event_engine.Ring.Concurrent.Consuming

-- A release only gives the producer more room.
IsFree-released :
    {e : EventView} {w : ℕ} {p : SpscRing} {m : Memory} → IsFree e w p m → IsFree e w p (released m)
IsFree-released f = record {
  writing = record { room = f.writing.room; position = f.writing.position; more = f.writing.more };
  free = omega (arith, f.free);
}

ProducerAt-released :
    (pc : ProducerPc) (p : SpscRing) (m : Memory) → ProducerAt pc p m → ProducerAt pc p (released m)
ProducerAt-released producer_idle p m at = tt
ProducerAt-released (checks_state e) p m at = tt
ProducerAt-released (checks_room e) p m at = at
ProducerAt-released (loads_read_cursor e w) p m at = record {
  room = at.room;
  position = at.position;
  more = at.more;
}
ProducerAt-released (fills_header e w) p m at = IsFree-released at
ProducerAt-released (fills_payload e w) p m (f, d) = (IsFree-released f, d)
ProducerAt-released (stores_write_cursor e w) p m (f, shows, fits) =
    (IsFree-released f, shows, fits)

-- The memory behind `close_publication` by the creator.
abbrev shut : Memory → Memory
shut m = record m {
  header = record m.header {
    preamble = record m.header.preamble { state = state_value RingState.closed };
  };
}

ConsumerAt-shut :
    (cpc : ConsumerPc) (c : SpscRing) (m : Memory) → ConsumerAt cpc c m → ConsumerAt cpc c (shut m)
ConsumerAt-shut consumer_idle c m at = tt
ConsumerAt-shut loads_own_cursor c m at = tt
ConsumerAt-shut (loads_state r) c m at = record { position = at.position; idle = at.idle }
ConsumerAt-shut (loads_write_cursor r st) c m (at, seen) =
    (record { position = at.position; idle = at.idle }, inr refl)
ConsumerAt-shut (reads_slot r) c m (at, known) =
    (record { position = at.position; idle = at.idle }, known)

module _ {p c : SpscRing} {m : Memory} {pc : ProducerPc} {h : History} where
  released-IsSound :
      IsSound (threads p c m pc consumer_idle) h
      → c.acquired ≡ true
      → read_position m < write_position m
      → IsSound (threads p (idle_again c) (released m) pc consumer_idle) h
  released-IsSound v busy below = record {
    linked = released-IsLinked v.linked below;
    producer_at = ProducerAt-released pc p m v.producer_at;
    consumer_at = tt;
    outside = v.outside;
    fifo =
        ap (λ xs. h.given ++ xs) (contents-released v.linked below)
        ∙ ap (λ b. h.given ++ (if b then drop_first (contents p m) else contents p m)) (sym busy)
        ∙ v.fifo;
    held = inl refl;
    drained = elim v.drained [ inl no_end ↦ inl no_end | inr (_, done) ↦ absurd (omega arith) ];
    no_invalid = v.no_invalid;
  }

  release-IsSound :
      IsSound (threads p c m pc consumer_idle) h
      → let (_, c', m') = release c m in IsSound (threads p c' m' pc consumer_idle) h
  release-IsSound v = elim v.linked.holds [
    | inl idle ↦ rw (release-idle v.linked idle) v
    | inr (busy, at_oldest, below) ↦
        rw (release-holding v.linked busy at_oldest below) (released-IsSound v busy below)
  ]

module _ {p c : SpscRing} {m : Memory} {h : History} where
  close-IsSound :
      (owner : SpscRing) (cpc : ConsumerPc)
      → IsSound (threads p c m producer_idle cpc) h
      → IsSound (threads p c (close_publication owner m).1 producer_idle cpc) h
  close-IsSound owner cpc v = elim (Bool-cases owner.initializer) [
    | inr other ↦ rw (left_alone other) v
    | inl own ↦ rw (closes own) (record {
      linked = rw (closes own) at (close_publication_refines v.linked owner).2;
      producer_at = tt;
      consumer_at = ConsumerAt-shut cpc c m v.consumer_at;
      outside = inl refl;
      fifo = v.fifo;
      held = v.held;
      drained = elim v.drained [ inl no_end ↦ inl no_end | inr (_, done) ↦ inr (refl, done) ];
      no_invalid = v.no_invalid;
    })
  ]
    where
      left_alone : owner.initializer ≡ false → close_publication owner m ≡ (false, m)
      left_alone e = unfold close_publication in ground arith

      closes : owner.initializer ≡ true → close_publication owner m ≡ (true, shut m)
      closes e = unfold close_publication in ground arith

-- The threads that an action leaves, whatever program counters they are at.
abbrev pub SoundAfter : Threads × History → Type 0
SoundAfter out = IsSound out.0 out.1

call_publish-IsSound :
    (p c : SpscRing) (m : Memory) (pc : ProducerPc) (cpc : ConsumerPc) (h : History) (e : EventView)
    → IsSound (threads p c m pc cpc) h
    → SoundAfter (step (threads p c m pc cpc) h (call_publish e))
unfolding step
call_publish-IsSound p c m producer_idle cpc h e v = moved v (checks_state e) tt (inl refl)
call_publish-IsSound p c m (checks_state _) cpc h e v = v
call_publish-IsSound p c m (checks_room _) cpc h e v = v
call_publish-IsSound p c m (loads_read_cursor _ _) cpc h e v = v
call_publish-IsSound p c m (fills_header _ _) cpc h e v = v
call_publish-IsSound p c m (fills_payload _ _) cpc h e v = v
call_publish-IsSound p c m (stores_write_cursor _ _) cpc h e v = v

call_acquire-IsSound :
    (p c : SpscRing) (m : Memory) (pc : ProducerPc) (cpc : ConsumerPc) (h : History)
    → IsSound (threads p c m pc cpc) h
    → SoundAfter (step (threads p c m pc cpc) h call_acquire)
unfolding step
call_acquire-IsSound p c m pc consumer_idle h v = Consuming.moved v loads_own_cursor tt
call_acquire-IsSound p c m pc loads_own_cursor h v = v
call_acquire-IsSound p c m pc (loads_state _) h v = v
call_acquire-IsSound p c m pc (loads_write_cursor _ _) h v = v
call_acquire-IsSound p c m pc (reads_slot _) h v = v

call_release-IsSound :
    (p c : SpscRing) (m : Memory) (pc : ProducerPc) (cpc : ConsumerPc) (h : History)
    → IsSound (threads p c m pc cpc) h
    → SoundAfter (step (threads p c m pc cpc) h call_release)
unfolding step
call_release-IsSound p c m pc consumer_idle h v = release-IsSound v
call_release-IsSound p c m pc loads_own_cursor h v = v
call_release-IsSound p c m pc (loads_state _) h v = v
call_release-IsSound p c m pc (loads_write_cursor _ _) h v = v
call_release-IsSound p c m pc (reads_slot _) h v = v

call_close-IsSound :
    (p c : SpscRing) (m : Memory) (pc : ProducerPc) (cpc : ConsumerPc) (h : History)
    (owner : SpscRing)
    → IsSound (threads p c m pc cpc) h
    → SoundAfter (step (threads p c m pc cpc) h (call_close owner))
unfolding step
call_close-IsSound p c m producer_idle cpc h owner v = close-IsSound owner cpc v
call_close-IsSound p c m (checks_state _) cpc h owner v = v
call_close-IsSound p c m (checks_room _) cpc h owner v = v
call_close-IsSound p c m (loads_read_cursor _ _) cpc h owner v = v
call_close-IsSound p c m (fills_header _ _) cpc h owner v = v
call_close-IsSound p c m (fills_payload _ _) cpc h owner v = v
call_close-IsSound p c m (stores_write_cursor _ _) cpc h owner v = v

-- Every action keeps the invariant.
step-IsSound : (s : Threads) (h : History) (a : Action) → IsSound s h → SoundAfter (step s h a)
step-IsSound s h (call_publish e) v =
    call_publish-IsSound s.producer s.consumer s.memory s.producer_pc s.consumer_pc h e v
step-IsSound s h produce v =
    unfold step in produce-IsSound s.producer s.consumer s.memory s.producer_pc s.consumer_pc h v
step-IsSound s h call_acquire v =
    call_acquire-IsSound s.producer s.consumer s.memory s.producer_pc s.consumer_pc h v
step-IsSound s h consume v =
    unfold step in consume-IsSound s.producer s.consumer s.memory s.producer_pc s.consumer_pc h v
step-IsSound s h call_release v =
    call_release-IsSound s.producer s.consumer s.memory s.producer_pc s.consumer_pc h v
step-IsSound s h (call_close owner) v =
    call_close-IsSound s.producer s.consumer s.memory s.producer_pc s.consumer_pc h owner v

pub run-IsSound :
    (s : Threads) (h : History) (schedule : List Action)
    → IsSound s h
    → SoundAfter (run s h schedule)
unfolding run
run-IsSound s h [] v = v
run-IsSound s h (a ∷ schedule) v =
    let (s', h') = step s h a in run-IsSound s' h' schedule (step-IsSound s h a v)
