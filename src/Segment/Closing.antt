-- ===== src/Segment/Closing.antt =====
-- The life of a segment of src/shm/segment.cpp up to its destructor.
use low_latency_event_engine.Base.{
  ℕ, ◌≡◌, refl, ap, ◌∙◌, arith, List, [], ◌∷◌, ◌++◌, Option, none, some,
}
use low_latency_event_engine.Os.{Reply, failed, returned}
use low_latency_event_engine.Os.Ledger.{as_list, collect-append, closes_one, closes}
use low_latency_event_engine.Segment.{Segment, SegmentErrno}
use low_latency_event_engine.Segment.Lifetime.{
  unmap_address, close_opened, close_shm, unlink_linked, unlink, destroy_segment, SegmentOp,
  closing, unlinking, moving, apply_op, live,
}

-- `close_shm` closes the descriptor and forgets it.
close_shm-closes :
    (u c : Reply) (s : Segment) (a d : Option ℕ)
    → let (_, s', calls) = close_shm u c (record s { address = a; descriptor = d }) in
      (closes calls ≡ as_list d) × (s'.descriptor ≡ none)
unfolding close_shm unmap_address close_opened
close_shm-closes u c s none none = (refl, refl)
close_shm-closes u (failed e) s none (some d) = (refl, refl)
close_shm-closes u (returned _) s none (some d) = (refl, refl)
close_shm-closes (failed e) c s (some a) none = (refl, refl)
close_shm-closes (returned _) c s (some a) none = (refl, refl)
close_shm-closes (failed e) (failed f) s (some a) (some d) = (refl, refl)
close_shm-closes (failed e) (returned _) s (some a) (some d) = (refl, refl)
close_shm-closes (returned _) (failed f) s (some a) (some d) = (refl, refl)
close_shm-closes (returned _) (returned _) s (some a) (some d) = (refl, refl)

unlink_linked-descriptor :
    (errno : SegmentErrno) (s : Segment) (r : Reply)
    → (unlink_linked errno s r).1.descriptor ≡ s.descriptor
unfolding unlink_linked
unlink_linked-descriptor errno s (returned _) = refl
unlink_linked-descriptor errno s (failed e) = ground arith

unlink-closes :
    (errno : SegmentErrno) (r : Reply) (s : Segment)
    → let (_, s', calls) = unlink errno r s in (closes calls ≡ []) × (s'.descriptor ≡ s.descriptor)
unfolding unlink
unlink-closes errno r s = ground (arith, unlink_linked-descriptor errno s r)

-- An operation closes the descriptor exactly if the segment has none behind it.
apply_op-closes :
    (op : SegmentOp) (s : Segment)
    → let (s', calls) = apply_op op s in
      closes calls ++ as_list s'.descriptor ≡ as_list s.descriptor
unfolding apply_op destroy_segment
apply_op-closes (closing u c) s =
    let (closed, gone) = close_shm-closes u c s s.address s.descriptor in
    rw (closed, gone) (append_nil s.descriptor)
  where
    append_nil : (o : Option ℕ) → as_list o ++ [] ≡ as_list o
    append_nil none = refl
    append_nil (some d) = refl
apply_op-closes (unlinking errno r) s =
    let (closed, kept) = unlink-closes errno r s in rw (closed, kept) refl
apply_op-closes (moving u c) s = unfold close_shm unmap_address close_opened in refl

-- Whatever is done with a segment, closed, unlinked and moved in any order and however the system calls
-- end, by the time that its last object is destroyed its descriptor has been closed exactly once.
pub live-closes :
    (u c : Reply) (ops : List SegmentOp) (s : Segment)
    → closes (live u c ops s) ≡ as_list s.descriptor
unfolding live destroy_segment
live-closes u c [] s = (close_shm-closes u c s s.address s.descriptor).0
live-closes u c (op ∷ ops) s =
    let (s', calls) = apply_op op s in
    collect-append closes_one calls (live u c ops s')
    ∙ ap (λ xs. closes calls ++ xs) (live-closes u c ops s')
    ∙ apply_op-closes op s
