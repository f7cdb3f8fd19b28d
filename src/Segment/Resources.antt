-- ===== src/Segment/Resources.antt =====
-- What the operations of src/shm/segment.cpp acquire and give back.
use low_latency_event_engine.Base.{
  ne→==, ℕ, zero, suc, ◌≡◌, inl, inr, refl, arith, true, false, not, ◌||◌, ◌==◌, Bool-cases, [],
  ◌∷◌, some, value, unexpected,
}
use low_latency_event_engine.Transport.{Reply, failed, returned}
use low_latency_event_engine.Os.Ledger.{opens, closes, creates, unlinks, maps}
use low_latency_event_engine.Segment.Lifetime.{
  attach_mapped, attach_inspected, attach_opened, attach_shm,
}
use low_latency_event_engine.Segment.{
  Segment, SegmentOperation, failure, SegmentErrno, Name, Replies, Made, is_shm_name_valid,
  create_mapped, create_resized, create_opened, create_shm,
}

-- A creation either gives a segment that owns all that was acquired, or gives everything back.
abbrev pub IsClean : Name → Made → Type 0
IsClean name (value s, calls) =
    ((d : ℕ) × (s.descriptor ≡ some d) × (opens calls ≡ d ∷ []))
    × ((a : ℕ) × (s.address ≡ some a) × (maps calls ≡ a ∷ []))
    × (closes calls ≡ [])
    × (s.owner ≡ true)
    × (creates calls ≡ name ∷ [])
    × (unlinks calls ≡ [])
IsClean name (unexpected e, calls) =
    (closes calls ≡ opens calls) × (unlinks calls ≡ creates calls) × (maps calls ≡ [])

create_opened-IsClean :
    (r : Replies) (name : Name) (size : ℕ) (o t m : Reply)
    → IsClean name (create_opened (record r { ftruncate = t; mmap = m }) name size o)
unfolding create_opened create_resized create_mapped
create_opened-IsClean r name size (failed e) t m = (refl, refl, refl)
create_opened-IsClean r name size (returned d) (failed e) m = (refl, refl, refl)
create_opened-IsClean r name size (returned d) (returned _) (failed e) = (refl, refl, refl)
create_opened-IsClean r name size (returned d) (returned _) (returned a) =
    ((d, refl, refl), (a, refl, refl), refl, refl, refl, refl)

-- `create_shm` gives back all that it has acquired when it fails, whichever call fails: every
-- descriptor is closed, `shm_unlink` is called on every name that was created, and nothing is mapped.
-- When it succeeds, its segment holds the descriptor and the mapping, and owns the name.
pub create_shm-IsClean :
    (errno : SegmentErrno) (r : Replies) (name : Name) (size : ℕ)
    → IsClean name (create_shm errno r name size)
create_shm-IsClean errno r name size =
    elim (Bool-cases (not (is_shm_name_valid name) || size == 0)) [
      | inl bad ↦ rw (invalid bad) (refl, refl, refl)
      | inr good ↦ rw (valid good) (create_opened-IsClean r name size r.shm_open r.ftruncate r.mmap)
    ]
  where
    invalid :
        (not (is_shm_name_valid name) || size == 0) ≡ true
        → create_shm errno r name size
          ≡ (unexpected (failure SegmentOperation.validate errno.einval), [])
    invalid e = unfold create_shm in rw e refl

    valid :
        (not (is_shm_name_valid name) || size == 0) ≡ false
        → create_shm errno r name size ≡ create_opened r name size r.shm_open
    valid e = unfold create_shm in rw e refl

-- An attachment either gives a segment that holds all that was acquired, or gives everything back; it
-- never creates or removes a name.
abbrev pub IsCleanAttachment : Made → Type 0
IsCleanAttachment (value s, calls) =
    ((d : ℕ) × (s.descriptor ≡ some d) × (opens calls ≡ d ∷ []))
    × ((a : ℕ) × (s.address ≡ some a) × (maps calls ≡ a ∷ []))
    × (closes calls ≡ [])
    × (s.owner ≡ false)
    × (unlinks calls ≡ [])
IsCleanAttachment (unexpected e, calls) =
    (closes calls ≡ opens calls) × (unlinks calls ≡ []) × (maps calls ≡ [])

attach_opened-IsClean :
    (errno : SegmentErrno) (r : Replies) (name : Name) (o f m : Reply)
    → IsCleanAttachment (attach_opened errno (record r { fstat = f; mmap = m }) name o)
unfolding attach_opened attach_inspected attach_mapped
attach_opened-IsClean errno r name (failed e) f m = (refl, refl, refl)
attach_opened-IsClean errno r name (returned d) (failed e) m = (refl, refl, refl)
attach_opened-IsClean errno r name (returned d) (returned zero) m = (refl, refl, refl)
attach_opened-IsClean errno r name (returned d) (returned (suc n)) (failed e) =
    rw (ne→== (suc n) 0 (omega arith)) (refl, refl, refl)
attach_opened-IsClean errno r name (returned d) (returned (suc n)) (returned a) =
    rw (ne→== (suc n) 0 (omega arith)) ((d, refl, refl), (a, refl, refl), refl, refl, refl)

-- `attach_shm` closes the descriptor that it has opened when it fails, whichever call fails. When it
-- succeeds, its segment holds the descriptor and the mapping and does not own the name, which is
-- never removed.
pub attach_shm-IsClean :
    (errno : SegmentErrno) (r : Replies) (name : Name) → IsCleanAttachment (attach_shm errno r name)
attach_shm-IsClean errno r name = elim (Bool-cases (not (is_shm_name_valid name))) [
  | inl bad ↦ rw (invalid bad) (refl, refl, refl)
  | inr good ↦ rw (valid good) (attach_opened-IsClean errno r name r.shm_open r.fstat r.mmap)
]
  where
    invalid :
        not (is_shm_name_valid name) ≡ true
        → attach_shm errno r name
          ≡ (unexpected (failure SegmentOperation.validate errno.einval), [])
    invalid e = unfold attach_shm in rw e refl

    valid :
        not (is_shm_name_valid name) ≡ false
        → attach_shm errno r name ≡ attach_opened errno r name r.shm_open
    valid e = unfold attach_shm in rw e refl
