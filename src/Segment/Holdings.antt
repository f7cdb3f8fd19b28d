-- ===== src/Segment/Holdings.antt =====
-- What the operations of src/shm/segment.cpp acquire and give back, in full.
use low_latency_event_engine.Base.{
  ne→==, ℕ, zero, suc, ◌≡◌, inl, inr, refl, arith, true, false, not, ◌||◌, ◌==◌, Bool-cases, List,
  [], ◌∷◌, Option, none, some, value, unexpected,
}
use low_latency_event_engine.Os.{Reply, failed, returned, Name}
use low_latency_event_engine.Os.Ledger.{as_list, answered, Amounts, Amounts_lem}
use low_latency_event_engine.Segment.{
  Segment, SegmentOperation, failure, SegmentErrno, Replies, Made, is_shm_name_valid, create_mapped,
  create_resized, create_opened, create_shm,
}
use low_latency_event_engine.Segment.Lifetime.{
  attach_mapped, attach_inspected, attach_opened, attach_shm, unmap_address, close_opened,
  close_shm, destroy_segment, unlink_linked, unlink,
}

-- An attachment: the segment holds what was acquired, or nothing is left.
abbrev pub IsAttached : Made → Type 0
IsAttached (value s, calls) =
    Amounts calls (as_list s.descriptor) [] (as_list s.address) [] [] [] × (s.owner ≡ false)
IsAttached (unexpected e, calls) =
    (d : Option ℕ) × Amounts calls (as_list d) (as_list d) [] [] [] []

-- A creation, in the same way, with what `shm_unlink` returns.
abbrev pub IsCreated : Reply → Made → Type 0
IsCreated shm_unlink (value s, calls) =
    Amounts calls (as_list s.descriptor) [] (as_list s.address) [] (s.name ∷ []) []
    × (s.owner ≡ true)
    × (s.linked ≡ true)
IsCreated shm_unlink (unexpected e, calls) =
    (d : Option ℕ) × (names : List Name) × Amounts calls (as_list d) (as_list d) [] [] names
      (answered shm_unlink names)

attach_opened-IsAttached :
    (errno : SegmentErrno) (r : Replies) (name : Name) (o f m : Reply)
    → IsAttached (attach_opened errno (record r { fstat = f; mmap = m }) name o)
unfolding attach_opened attach_inspected attach_mapped
attach_opened-IsAttached errno r name (failed e) f m = (none, Amounts_lem _)
attach_opened-IsAttached errno r name (returned d) (failed e) m = (some d, Amounts_lem _)
attach_opened-IsAttached errno r name (returned d) (returned zero) m = (some d, Amounts_lem _)
attach_opened-IsAttached errno r name (returned d) (returned (suc n)) (failed e) =
    rw (ne→== (suc n) 0 (omega arith)) (some d, Amounts_lem _)
attach_opened-IsAttached errno r name (returned d) (returned (suc n)) (returned a) =
    rw (ne→== (suc n) 0 (omega arith)) (Amounts_lem _, refl)

pub attach_shm-IsAttached :
    (errno : SegmentErrno) (r : Replies) (name : Name) → IsAttached (attach_shm errno r name)
attach_shm-IsAttached errno r name = elim (Bool-cases (not (is_shm_name_valid name))) [
  | inl bad ↦ rw (invalid bad) (none, Amounts_lem [])
  | inr good ↦ rw (valid good) (attach_opened-IsAttached errno r name r.shm_open r.fstat r.mmap)
]
  where
    invalid :
        not (is_shm_name_valid name) ≡ true
        → attach_shm errno r name
          ≡ (unexpected (failure SegmentOperation.validate errno.einval), [])
    invalid e = unfold attach_shm in rw e refl

    valid :
        not (is_shm_name_valid name) ≡ false
        → attach_shm errno r name ≡ attach_opened errno r name r.shm_open
    valid e = unfold attach_shm in rw e refl

create_opened-IsCreated :
    (r : Replies) (name : Name) (size : ℕ) (o t m : Reply)
    → IsCreated r.shm_unlink (create_opened (record r { ftruncate = t; mmap = m }) name size o)
unfolding create_opened create_resized create_mapped
create_opened-IsCreated r name size (failed e) t m = (none, [], Amounts_lem _)
create_opened-IsCreated r name size (returned d) (failed e) m = (some d, name ∷ [], Amounts_lem _)
create_opened-IsCreated r name size (returned d) (returned _) (failed e) =
    (some d, name ∷ [], Amounts_lem _)
create_opened-IsCreated r name size (returned d) (returned _) (returned a) =
    (Amounts_lem _, refl, refl)

pub create_shm-IsCreated :
    (errno : SegmentErrno) (r : Replies) (name : Name) (size : ℕ)
    → IsCreated r.shm_unlink (create_shm errno r name size)
create_shm-IsCreated errno r name size =
    elim (Bool-cases (not (is_shm_name_valid name) || size == 0)) [
      | inl bad ↦ rw (invalid bad) (none, [], Amounts_lem [])
      | inr good ↦
          rw (valid good) (create_opened-IsCreated r name size r.shm_open r.ftruncate r.mmap)
    ]
  where
    invalid :
        (not (is_shm_name_valid name) || size == 0) ≡ true
        → create_shm errno r name size
          ≡ (unexpected (failure SegmentOperation.validate errno.einval), [])
    invalid e = unfold create_shm in rw e refl

    valid :
        (not (is_shm_name_valid name) || size == 0) ≡ false
        → create_shm errno r name size ≡ create_opened r name size r.shm_open
    valid e = unfold create_shm in rw e refl

destroy-Amounts :
    (u c : Reply) (s : Segment) (a d : Option ℕ)
    → Amounts
        (destroy_segment u c (record s { address = a; descriptor = d }))
        []
        (as_list d)
        []
        (answered u (as_list a))
        []
        []
unfolding destroy_segment close_shm unmap_address close_opened
destroy-Amounts u c s none none = Amounts_lem _
destroy-Amounts u (failed e) s none (some d) = Amounts_lem _
destroy-Amounts u (returned _) s none (some d) = Amounts_lem _
destroy-Amounts (failed e) c s (some a) none = Amounts_lem _
destroy-Amounts (returned _) c s (some a) none = Amounts_lem _
destroy-Amounts (failed e) (failed f) s (some a) (some d) = Amounts_lem _
destroy-Amounts (failed e) (returned _) s (some a) (some d) = Amounts_lem _
destroy-Amounts (returned _) (failed f) s (some a) (some d) = Amounts_lem _
destroy-Amounts (returned _) (returned _) s (some a) (some d) = Amounts_lem _

-- The destructor closes the descriptor and calls `munmap` once on the memory, and never unlinks.
pub destroy_segment-Amounts :
    (u c : Reply) (s : Segment)
    → Amounts
        (destroy_segment u c s)
        []
        (as_list s.descriptor)
        []
        (answered u (as_list s.address))
        []
        []
destroy_segment-Amounts u c s = destroy-Amounts u c s s.address s.descriptor

unlink_linked-keeps :
    (errno : SegmentErrno) (s : Segment) (r : Reply)
    → let (_, s') = unlink_linked errno s r in
      (s'.descriptor ≡ s.descriptor) × (s'.address ≡ s.address)
unfolding unlink_linked
unlink_linked-keeps errno s (returned _) = (refl, refl)
unlink_linked-keeps errno s (failed e) = elim (Bool-cases (e == errno.enoent)) [
  | inl gone ↦ rw gone (refl, refl)
  | inr other ↦ rw other (refl, refl)
]

-- The owner of a linked name calls `shm_unlink` on it once, whatever that returns.
pub unlink-Amounts :
    (errno : SegmentErrno) (r : Reply) (s : Segment)
    → s.owner ≡ true
    → s.linked ≡ true
    → let (_, s', calls) = unlink errno r s in
      Amounts calls [] [] [] [] [] ((s.name, r) ∷ [])
      × (s'.descriptor ≡ s.descriptor)
      × (s'.address ≡ s.address)
unfolding unlink
unlink-Amounts errno r s owner linked =
    let (descriptor, address) =
      unlink_linked-keeps errno (record s { owner = true; linked = true }) r in
    rw (owner, linked) (Amounts_lem _, descriptor, address)
