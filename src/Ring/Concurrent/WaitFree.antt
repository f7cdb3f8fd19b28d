-- ===== src/Ring/Concurrent/WaitFree.antt =====
-- The calls of include/shm/spsc_ring.hpp are wait-free: each returns after a bounded number of its own
-- steps, whatever the other thread does in between.
use low_latency_event_engine.Base.{ℕ, suc, ◌-◌, ◌≤◌, ◌≡◌, refl, arith, List, [], ◌∷◌}
use low_latency_event_engine.Ring.Layout.{Memory}
use low_latency_event_engine.Ring.Setup.{SpscRing}
use low_latency_event_engine.Ring.Concurrent.{
  ProducerPc, producer_idle, checks_state, checks_room, loads_read_cursor, fills_header,
  fills_payload, stores_write_cursor, ConsumerPc, consumer_idle, loads_own_cursor, loads_state,
  loads_write_cursor, reads_slot, Threads, History, Action, call_publish, produce, call_acquire,
  consume, call_release, call_close, check_ready, check_room, check_refreshed, check_known,
  check_any, read_slot, publish_step, acquire_step, produced, consumed, step, run,
}

-- How many steps a call of `try_publish` takes at most from here.
abbrev pub publish_rank : ProducerPc → ℕ
publish_rank producer_idle = 0
publish_rank (stores_write_cursor _ _) = 1
publish_rank (fills_payload _ _) = 2
publish_rank (fills_header _ _) = 3
publish_rank (loads_read_cursor _ _) = 4
publish_rank (checks_room _) = 5
publish_rank (checks_state _) = 6

-- How many steps a call of `try_acquire` takes at most from here.
abbrev pub acquire_rank : ConsumerPc → ℕ
acquire_rank consumer_idle = 0
acquire_rank (reads_slot _) = 1
acquire_rank (loads_write_cursor _ _) = 2
acquire_rank (loads_state _) = 3
acquire_rank loads_own_cursor = 4

-- How many steps of the producer a schedule has; it starts no call of its own.
abbrev pub produces : List Action → ℕ
produces [] = 0
produces (produce ∷ ps) = suc (produces ps)
produces (other ∷ ps) = produces ps

abbrev pub consumes : List Action → ℕ
consumes [] = 0
consumes (consume ∷ ps) = suc (consumes ps)
consumes (other ∷ ps) = consumes ps

abbrev pub NoPublish : List Action → Type 0
NoPublish [] = Unit
NoPublish (call_publish e ∷ ps) = ⊥
NoPublish (other ∷ ps) = NoPublish ps

abbrev pub NoAcquire : List Action → Type 0
NoAcquire [] = Unit
NoAcquire (call_acquire ∷ ps) = ⊥
NoAcquire (other ∷ ps) = NoAcquire ps

publish_rank-step :
    (pc : ProducerPc) (p : SpscRing) (m : Memory) (h : History)
    → publish_rank (produced pc (publish_step pc p m).0 h).0 ≤ publish_rank pc - 1
unfolding publish_step produced check_ready check_room check_refreshed
publish_rank-step producer_idle p m h = omega arith
publish_rank-step (checks_state e) p m h = ground arith
publish_rank-step (checks_room e) p m h = ground arith
publish_rank-step (loads_read_cursor e w) p m h = ground arith
publish_rank-step (fills_header e w) p m h = omega arith
publish_rank-step (fills_payload e w) p m h = omega arith
publish_rank-step (stores_write_cursor e w) p m h = omega arith

acquire_rank-step :
    (pc : ConsumerPc) (c : SpscRing) (m : Memory) (h : History)
    → acquire_rank (consumed (acquire_step pc c m).0 h).0 ≤ acquire_rank pc - 1
unfolding acquire_step consumed check_known check_any read_slot
acquire_rank-step consumer_idle c m h = omega arith
acquire_rank-step loads_own_cursor c m h = ground arith
acquire_rank-step (loads_state r) c m h = omega arith
acquire_rank-step (loads_write_cursor r st) c m h = ground arith
acquire_rank-step (reads_slot r) c m h = ground arith

publish_rank-zero : (pc : ProducerPc) → publish_rank pc ≡ 0 → pc ≡ producer_idle
publish_rank-zero producer_idle e = refl
publish_rank-zero (checks_state _) e = absurd (omega arith)
publish_rank-zero (checks_room _) e = absurd (omega arith)
publish_rank-zero (loads_read_cursor _ _) e = absurd (omega arith)
publish_rank-zero (fills_header _ _) e = absurd (omega arith)
publish_rank-zero (fills_payload _ _) e = absurd (omega arith)
publish_rank-zero (stores_write_cursor _ _) e = absurd (omega arith)

acquire_rank-zero : (pc : ConsumerPc) → acquire_rank pc ≡ 0 → pc ≡ consumer_idle
acquire_rank-zero consumer_idle e = refl
acquire_rank-zero loads_own_cursor e = absurd (omega arith)
acquire_rank-zero (loads_state _) e = absurd (omega arith)
acquire_rank-zero (loads_write_cursor _ _) e = absurd (omega arith)
acquire_rank-zero (reads_slot _) e = absurd (omega arith)

publish_rank-run :
    (s : Threads) (h : History) (ps : List Action)
    → NoPublish ps
    → publish_rank (run s h ps).0.producer_pc ≤ publish_rank s.producer_pc - produces ps
unfolding run step
publish_rank-run s h [] no_call = omega arith
publish_rank-run s h (call_publish e ∷ ps) no_call = elim no_call [ ]
publish_rank-run s h (produce ∷ ps) no_call =
    let (s', h') = step s h produce in
    omega (
      arith,
      publish_rank-run s' h' ps no_call,
      publish_rank-step s.producer_pc s.producer s.memory h,
    )
publish_rank-run s h (call_acquire ∷ ps) no_call =
    let (s', h') = step s h call_acquire in ground (arith, publish_rank-run s' h' ps no_call)
publish_rank-run s h (consume ∷ ps) no_call =
    let (s', h') = step s h consume in publish_rank-run s' h' ps no_call
publish_rank-run s h (call_release ∷ ps) no_call =
    let (s', h') = step s h call_release in ground (arith, publish_rank-run s' h' ps no_call)
publish_rank-run s h (call_close owner ∷ ps) no_call =
    let (s', h') = step s h (call_close owner) in ground (arith, publish_rank-run s' h' ps no_call)

acquire_rank-run :
    (s : Threads) (h : History) (ps : List Action)
    → NoAcquire ps
    → acquire_rank (run s h ps).0.consumer_pc ≤ acquire_rank s.consumer_pc - consumes ps
unfolding run step
acquire_rank-run s h [] no_call = omega arith
acquire_rank-run s h (call_acquire ∷ ps) no_call = elim no_call [ ]
acquire_rank-run s h (consume ∷ ps) no_call =
    let (s', h') = step s h consume in
    omega (
      arith,
      acquire_rank-run s' h' ps no_call,
      acquire_rank-step s.consumer_pc s.consumer s.memory h,
    )
acquire_rank-run s h (call_publish e ∷ ps) no_call =
    let (s', h') = step s h (call_publish e) in ground (arith, acquire_rank-run s' h' ps no_call)
acquire_rank-run s h (produce ∷ ps) no_call =
    let (s', h') = step s h produce in acquire_rank-run s' h' ps no_call
acquire_rank-run s h (call_release ∷ ps) no_call =
    let (s', h') = step s h call_release in ground (arith, acquire_rank-run s' h' ps no_call)
acquire_rank-run s h (call_close owner ∷ ps) no_call =
    let (s', h') = step s h (call_close owner) in ground (arith, acquire_rank-run s' h' ps no_call)

-- The calls are wait-free. From any state, ring memory and handles that may even be corrupt included,
-- a call of `try_publish` has returned once its thread has taken six steps, and one of `try_acquire`
-- once its thread has taken four, however the other thread's steps lie between; each thread starts
-- no further call meanwhile.
pub wait_free :
    (s : Threads) (h : History) (ps cs : List Action)
    → NoPublish ps
    → 6 ≤ produces ps
    → NoAcquire cs
    → 4 ≤ consumes cs
    → ((run s h ps).0.producer_pc ≡ producer_idle) × ((run s h cs).0.consumer_pc ≡ consumer_idle)
wait_free s h ps cs no_publish six no_acquire four = (
  publish_rank-zero (run s h ps).0.producer_pc
      (omega (arith, publish_rank-run s h ps no_publish, at_most_six s.producer_pc)),
  acquire_rank-zero (run s h cs).0.consumer_pc
      (omega (arith, acquire_rank-run s h cs no_acquire, at_most_four s.consumer_pc)),
)
  where
    at_most_six : (pc : ProducerPc) → publish_rank pc ≤ 6
    at_most_six pc = ground arith

    at_most_four : (pc : ConsumerPc) → acquire_rank pc ≤ 4
    at_most_four pc = ground arith
