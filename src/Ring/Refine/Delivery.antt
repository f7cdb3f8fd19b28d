-- ===== src/Ring/Refine/Delivery.antt =====
-- Any sequence of calls on a producer handle and a consumer handle of include/shm/spsc_ring.hpp
-- delivers what was accepted: in order, once, and unchanged.
use low_latency_event_engine.Base.{
  ℕ, ◌+◌, Bool-cases, ◌≡◌, ◌⊎◌, inl, inr, ◌∙◌, refl, sym, ap, ap₂, arith, List, [], ◌∷◌, ◌++◌, Bool,
  true, false, if◌then◌else◌, some, value, unexpected,
}
use low_latency_event_engine.Event.{EventView, PublishResult}
use low_latency_event_engine.Ring.Ops.{AcquireError}
use low_latency_event_engine.Ring.Queue.{Queue, drop_first}
use low_latency_event_engine.Ring.Queue
use low_latency_event_engine.Ring.Linked.{contents}
use mathlib.Core.List.{append_assoc}
use low_latency_event_engine.Ring.Refine.Calls.{
  Op, publish, acquire, release_held, close, System, call, queue_call, SystemIsLinked, system_queue,
  call_refines, History, no_history, as_list, observe, call_all,
}

-- The held event is the oldest one of the queue.
abbrev HeldIsOldest : Queue → History → Type 0
HeldIsOldest q h =
    (q.held ≡ false)
    ⊎ ((e : EventView) × (rest : List EventView) × (q.items ≡ e ∷ rest) × (h.current ≡ some e))

-- Nothing is lost, repeated, reordered or changed between the two sides.
pub record IsFaithful (q : Queue) (h : History) : Type 0 where
  pub fifo : h.consumed ++ q.items ≡ h.accepted
  pub held : HeldIsOldest q h

abbrev appended : Queue → EventView → Queue
appended q e = record q { items = q.items ++ (e ∷ []); published = q.published + 1 }

publish-cases :
    (count capacity : ℕ) (q : Queue) (e : EventView)
    → (Queue.publish count capacity q e ≡ (PublishResult.ok, appended q e))
      ⊎ (Queue.publish count capacity q e ≡ (PublishResult.full, q))
      ⊎ (Queue.publish count capacity q e ≡ (PublishResult.payload_too_large, q))
      ⊎ (Queue.publish count capacity q e ≡ (PublishResult.closed, q))
unfolding Queue.publish
publish-cases count capacity q e = ground arith

HeldIsOldest-appended :
    (q : Queue) (h : History) (e : EventView)
    → HeldIsOldest q h
    → HeldIsOldest (appended q e) (record h { accepted = h.accepted ++ (e ∷ []) })
HeldIsOldest-appended q h e (inl idle) = inl idle
HeldIsOldest-appended q h e (inr (x, rest, items, current)) =
    inr (x, rest ++ (e ∷ []), ap (λ t. t ++ (e ∷ [])) items, current)

publish-IsFaithful :
    (count capacity : ℕ) (q : Queue) (h : History) (e : EventView)
    → IsFaithful q h
    → let (reply, q') = queue_call count capacity q (publish e) in
      IsFaithful q' (observe h (publish e) reply)
unfolding queue_call observe
publish-IsFaithful count capacity q h e f = elim (publish-cases count capacity q e) [
  | inl done ↦ rw done (record {
    fifo = sym (append_assoc h.consumed q.items (e ∷ [])) ∙ ap (λ t. t ++ (e ∷ [])) f.fifo;
    held = HeldIsOldest-appended q h e f.held;
  })
  | inr (inl full) ↦ rw full f
  | inr (inr (inl large)) ↦ rw large f
  | inr (inr (inr shut)) ↦ rw shut f
]

acquire-cases :
    (q : Queue)
    → ((error : AcquireError) × (Queue.acquire q ≡ (unexpected error, q)))
      ⊎ ((e : EventView) × (rest : List EventView) × (q.items ≡ e ∷ rest)
          × (Queue.acquire q ≡ (value e, record q { held = true })))
unfolding Queue.acquire
acquire-cases q = by_cases q.held q.items refl refl
  where
    by_cases :
        (held : Bool) (items : List EventView)
        → q.held ≡ held
        → q.items ≡ items
        → ((error : AcquireError) × (Queue.acquire q ≡ (unexpected error, q)))
          ⊎ ((e : EventView) × (rest : List EventView) × (q.items ≡ e ∷ rest)
              × (Queue.acquire q ≡ (value e, record q { held = true })))
    by_cases true items h i = inl (AcquireError.already_acquired, ground arith)
    by_cases false [] h i =
        inl ((if q.is_closed then AcquireError.closed else AcquireError.empty), ground arith)
    by_cases false (e ∷ rest) h i = inr (e, rest, i, ground arith)

acquire-IsFaithful :
    (count capacity : ℕ) (q : Queue) (h : History)
    → IsFaithful q h
    → let (reply, q') = queue_call count capacity q acquire in
      IsFaithful q' (observe h acquire reply)
unfolding queue_call observe
acquire-IsFaithful count capacity q h f = elim (acquire-cases q) [
  | inl (error, same) ↦ rw same f
  | inr (e, rest, items, taken) ↦
      rw taken (record { fifo = f.fifo; held = inr (e, rest, items, refl) })
]

release-IsFaithful :
    (count capacity : ℕ) (q : Queue) (h : History)
    → IsFaithful q h
    → let (reply, q') = queue_call count capacity q release_held in
      IsFaithful q' (observe h release_held reply)
unfolding queue_call observe
release-IsFaithful count capacity q h f = elim (Bool-cases q.held) [
  | inr idle ↦ rw (kept idle) f
  | inl busy ↦ elim f.held [
    | inl idle ↦ cc
    | inr (e, rest, items, current) ↦ rw (freed busy) (record {
      fifo =
          ap₂ (λ c xs. (h.consumed ++ as_list c) ++ drop_first xs) current items
          ∙ append_assoc h.consumed (e ∷ []) rest
          ∙ ap (λ t. h.consumed ++ t) (sym items)
          ∙ f.fifo;
      held = inl refl;
    })
  ]
]
  where
    kept : q.held ≡ false → Queue.release q ≡ (false, q)
    kept idle = unfold Queue.release in ground arith

    freed :
        q.held ≡ true
        → Queue.release q ≡ (true, record q { items = drop_first q.items; held = false })
    freed busy = unfold Queue.release in ground arith

queue_call-IsFaithful :
    (count capacity : ℕ) (q : Queue) (h : History) (op : Op)
    → IsFaithful q h
    → let (reply, q') = queue_call count capacity q op in IsFaithful q' (observe h op reply)
unfolding queue_call observe Queue.close
queue_call-IsFaithful count capacity q h (publish e) f = publish-IsFaithful count capacity q h e f
queue_call-IsFaithful count capacity q h acquire f = acquire-IsFaithful count capacity q h f
queue_call-IsFaithful count capacity q h release_held f = release-IsFaithful count capacity q h f
queue_call-IsFaithful count capacity q h (close owner) f = elim (Bool-cases owner.initializer) [
  | inl own ↦ rw own (record { fifo = f.fifo; held = f.held })
  | inr other ↦ rw other f
]

-- The ring holds what is accepted and not yet consumed, behind any sequence of calls.
call_all-IsFaithful :
    (s : System) (h : History) (ops : List Op)
    → SystemIsLinked s
    → IsFaithful (system_queue s) h
    → let (s', h') = call_all s h ops in SystemIsLinked s' × IsFaithful (system_queue s') h'
unfolding call_all
call_all-IsFaithful s h [] v f = (v, f)
call_all-IsFaithful s h (op ∷ ops) v f =
    let r = call_refines s op v in
    let g =
      queue_call-IsFaithful s.producer.slot_count s.producer.slot_payload_capacity (system_queue s)
        h op f in
    call_all-IsFaithful (call s op).1 (observe h op (call s op).0) ops r.2 (rw (r.0, r.1) g)

-- From linked handles on an empty queue, after any sequence of publish, acquire, release and close
-- calls, the events accepted by `try_publish` are those consumed, in order, followed by those still in
-- the ring: nothing is lost, repeated, reordered or changed, and the handles stay linked.
pub delivery :
    (s : System) (ops : List Op)
    → SystemIsLinked s
    → (system_queue s).items ≡ []
    → (system_queue s).held ≡ false
    → let (s', h') = call_all s no_history ops in
      SystemIsLinked s' × (h'.consumed ++ contents s'.producer s'.memory ≡ h'.accepted)
delivery s ops v empty idle =
    let (linked, faithful) =
      call_all-IsFaithful s no_history ops v (record { fifo = empty; held = inl idle }) in
    (linked, faithful.fifo)
