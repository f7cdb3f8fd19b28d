-- ===== src/Ring/Refine/Calls.antt =====
-- Calls on a producer handle and a consumer handle of include/shm/spsc_ring.hpp, in any order, and what
-- the callers see of them.
-- delivers what was accepted: in order, once, and unchanged.
use low_latency_event_engine.Base.{
  ℕ, ◌≡◌, ap, List, [], ◌∷◌, ◌++◌, Bool, true, if◌then◌else◌, Option, some, none, Expected, value,
}
use low_latency_event_engine.Event.{EventView, PublishResult}
use low_latency_event_engine.Ring.Layout.{Memory}
use low_latency_event_engine.Ring.Setup.{SpscRing}
use low_latency_event_engine.Ring.Ops.{
  AcquireError, try_publish, try_acquire, release, close_publication,
}
use low_latency_event_engine.Ring.Queue.{Queue, drop_first}
use low_latency_event_engine.Ring.Queue
use low_latency_event_engine.Ring.Refine.Acquire.{try_acquire_refines}
use low_latency_event_engine.Ring.Refine.Release.{release_refines, close_publication_refines}
use low_latency_event_engine.Ring.Linked.{IsLinked, queue_of}
use low_latency_event_engine.Ring.Refine.Publish.{try_publish_refines}

-- A call of one side, and what it returns. `close` is called on some handle of the ring.
pub data Op : Type 0 where
  publish : EventView → Op
  acquire : Op
  release_held : Op
  close : SpscRing → Op

pub data Reply : Type 0 where
  published : PublishResult → Reply
  acquired : Expected EventView AcquireError → Reply
  released : Bool → Reply
  closed : Bool → Reply

pub record System : Type 0 where
  pub producer : SpscRing
  pub consumer : SpscRing
  pub memory : Memory

unfoldable pub call : System → Op → Reply × System
call s (publish e) =
    let (result, p, m) = try_publish s.producer s.memory e in
    (published result, record s { producer = p; memory = m })
call s acquire =
    let (result, c) = try_acquire s.consumer s.memory in
    (acquired result, record s { consumer = c })
call s release_held =
    let (result, c, m) = release s.consumer s.memory in
    (released result, record s { consumer = c; memory = m })
call s (close owner) =
    let (result, m) = close_publication owner s.memory in (closed result, record s { memory = m })

-- The same call on the abstract queue of a ring of `count` slots with payloads up to `capacity`.
unfoldable pub queue_call : ℕ → ℕ → Queue → Op → Reply × Queue
queue_call count capacity q (publish e) =
    let (result, q') = Queue.publish count capacity q e in (published result, q')
queue_call count capacity q acquire = let (result, q') = Queue.acquire q in (acquired result, q')
queue_call count capacity q release_held =
    let (result, q') = Queue.release q in (released result, q')
queue_call count capacity q (close owner) =
    (closed owner.initializer, if owner.initializer then Queue.close q else q)

abbrev pub SystemIsLinked : System → Type 0
SystemIsLinked s = IsLinked s.producer s.consumer s.memory

abbrev pub system_queue : System → Queue
system_queue s = queue_of s.producer s.consumer s.memory

-- One call on the ring is the call on its queue.
pub call_refines :
    (s : System) (op : Op)
    → SystemIsLinked s
    → let (reply, s') = call s op in
      let (reply', q) =
        queue_call s.producer.slot_count s.producer.slot_payload_capacity (system_queue s) op in
      (reply ≡ reply') × (system_queue s' ≡ q) × SystemIsLinked s'
unfolding call queue_call
call_refines s (publish e) v = let r = try_publish_refines e v in (ap published r.0, r.1, r.2)
call_refines s acquire v = let r = try_acquire_refines v in (ap acquired r.0, r.1, r.2)
call_refines s release_held v = let r = release_refines v in (ap released r.0, r.1, r.2)
call_refines s (close owner) v =
    let r = close_publication_refines v owner in (ap closed r.0, r.1, r.2)

-- What the callers have seen: events accepted, events used and released, and the event in use.
pub record History : Type 0 where
  pub accepted : List EventView
  pub consumed : List EventView
  pub current : Option EventView

abbrev pub no_history : History
no_history = record { accepted = []; consumed = []; current = none }

abbrev pub as_list : Option EventView → List EventView
as_list none = []
as_list (some e) = e ∷ []

unfoldable pub observe : History → Op → Reply → History
observe h (publish e) (published PublishResult.ok) = record h { accepted = h.accepted ++ (e ∷ []) }
observe h acquire (acquired (value e)) = record h { current = some e }
observe h release_held (released true) = record h {
  consumed = h.consumed ++ as_list h.current;
  current = none;
}
observe h op reply = h

unfoldable pub call_all : System → History → List Op → System × History
call_all s h [] = (s, h)
call_all s h (op ∷ ops) = let (reply, s') = call s op in call_all s' (observe h op reply) ops
