-- ===== src/Ring/Concurrent/Producing.antt =====
-- The steps of `try_publish` of include/shm/spsc_ring.hpp keep the invariant of the two threads.
use low_latency_event_engine.Base.{
  ℕ, ◌+◌, ◌^◌, ◌≤◌, ◌<◌, ◌≡◌, inl, inr, refl, ap, ◌∙◌, arith, false, length, copy_at, take,
  take-copy_at, length-copy_at,
}
use native.Mathlib.Decide.{dec_lt, dec_le}
use low_latency_event_engine.Event.{EventView, PublishResult}
use low_latency_event_engine.Ring.Layout.{RingState, state_value, Slot, Memory}
use low_latency_event_engine.Ring.Setup.{SpscRing}
use low_latency_event_engine.Ring.Ops.{slot_event, fill_slot_header}
use low_latency_event_engine.Ring.Linked.{read_position, write_position, slot_at, IsFormatted}
use low_latency_event_engine.Ring.Refine.Write.{replaced, slot_at-replaced_self}
use low_latency_event_engine.Ring.Refine.Publish.{refreshed}
use low_latency_event_engine.Ring.Concurrent.{
  ProducerPc, producer_idle, checks_state, checks_room, loads_read_cursor, fills_header,
  fills_payload, stores_write_cursor, ConsumerPc, goes_on, returns, History, check_ready,
  check_room, check_refreshed, publish_step, produced,
}
use low_latency_event_engine.Ring.Concurrent.Frames.{
  threads, moved, refreshed-IsSound, replaced-IsSound, stored-IsSound,
}
use low_latency_event_engine.Ring.Concurrent.Invariant.{Describes, IsWriting, is_outside, IsSound}

-- The step keeps the invariant.
abbrev pub ProduceIsSound :
    SpscRing → SpscRing → Memory → ProducerPc → ConsumerPc → History → Type 0
ProduceIsSound p c m pc cpc h =
    let (out, p', m') = publish_step pc p m in
    let (pc', h') = produced pc out h in IsSound (threads p' c m' pc' cpc) h'

abbrev own_slot : SpscRing → Memory → Slot
own_slot p m = slot_at p m (write_position m)

-- Metadata and payload together show the event.
shown :
    (slot : Slot) (e : EventView)
    → Describes e slot.header
    → length e.payload ≤ length slot.bytes
    → slot_event (record slot { bytes = copy_at slot.bytes 0 e.payload }) ≡ e
unfolding slot_event
shown slot e d room i = record {
  stream_id = d.stream i;
  sequence = d.sequence i;
  source_timestamp_ns = d.time i;
  payload =
      (ap (λ n. take n (copy_at slot.bytes 0 e.payload)) d.size
          ∙ take-copy_at slot.bytes e.payload room)
        i;
}

-- Behind the test of the state, the ring is not closed: the creator has not stopped the producer.
ready_inside :
    {p c : SpscRing} {m : Memory} {pc : ProducerPc} {cpc : ConsumerPc} {h : History}
    → IsSound (threads p c m pc cpc) h
    → is_outside pc ≡ false
    → m.header.preamble.state ≡ state_value RingState.ready
ready_inside v inside = ground (arith, v.outside)

module _ {p c : SpscRing} {m : Memory} {cpc : ConsumerPc} {h : History} (e : EventView) where
  produce-checks_state :
      IsSound (threads p c m (checks_state e) cpc) h → ProduceIsSound p c m (checks_state e) cpc h
  unfolding publish_step produced
  produce-checks_state v = elim v.linked.state [
    | inr shut ↦ rw (closed shut) (moved v producer_idle tt (inl refl))
    | inl ready ↦ elim (dec_le (length e.payload) p.slot_payload_capacity) [
      | no large ↦ rw (too_large ready large) (moved v producer_idle tt (inl refl))
      | yes room ↦ rw (passes ready room) (moved v (checks_room e) room (inr ready))
    ]
  ]
    where
      closed :
          m.header.preamble.state ≡ 3
          → check_ready p e m.header.preamble.state ≡ returns PublishResult.closed
      closed s = unfold check_ready in ground (arith, v.linked.p_attached)

      too_large :
          m.header.preamble.state ≡ 2
          → ¬ (length e.payload ≤ p.slot_payload_capacity)
          → check_ready p e m.header.preamble.state ≡ returns PublishResult.payload_too_large
      too_large s l = unfold check_ready in ground (arith, v.linked.p_attached)

      passes :
          m.header.preamble.state ≡ 2
          → length e.payload ≤ p.slot_payload_capacity
          → check_ready p e m.header.preamble.state ≡ goes_on (checks_room e)
      passes s l = unfold check_ready in ground (arith, v.linked.p_attached)

  produce-checks_room :
      IsSound (threads p c m (checks_room e) cpc) h → ProduceIsSound p c m (checks_room e) cpc h
  unfolding publish_step produced
  produce-checks_room v = elim (dec_lt (write_position m + 1) (2 ^ 64)) [
    | no last ↦ rw (exhausted last) (moved v producer_idle tt (inl refl))
    | yes more ↦
        let writing : IsWriting e (write_position m) p m = record {
          room = v.producer_at;
          position = refl;
          more = more;
        } in
        elim (dec_lt (write_position m) (p.cached_read_position + p.slot_count)) [
          | yes known ↦ rw (fills more known) (
              moved v (fills_header e (write_position m))
                (record { writing = writing; free = omega (arith, v.linked.read_cache) })
                (inr (ready_inside v refl)))
          | no stale ↦
              rw (refreshes more stale) (
                moved v (loads_read_cursor e (write_position m)) writing
                  (inr (ready_inside v refl)))
        ]
  ]
    where
      exhausted :
          ¬ (write_position m + 1 < 2 ^ 64)
          → check_room p e (write_position m) ≡ returns PublishResult.closed
      exhausted l = unfold check_room in ground (arith, v.linked.width)

      fills :
          write_position m + 1 < 2 ^ 64
          → write_position m < p.cached_read_position + p.slot_count
          → check_room p e (write_position m) ≡ goes_on (fills_header e (write_position m))
      fills l k =
          unfold check_room in
          ground (arith, v.linked.order, v.linked.read_cache, v.linked.geometry.count_width)

      refreshes :
          write_position m + 1 < 2 ^ 64
          → ¬ (write_position m < p.cached_read_position + p.slot_count)
          → check_room p e (write_position m) ≡ goes_on (loads_read_cursor e (write_position m))
      refreshes l k =
          unfold check_room in
          ground (arith, v.linked.order, v.linked.read_cache, v.linked.geometry.count_width)

  produce-loads_read_cursor :
      IsSound (threads p c m (loads_read_cursor e (write_position m)) cpc) h
      → ProduceIsSound p c m (loads_read_cursor e (write_position m)) cpc h
  unfolding publish_step produced
  produce-loads_read_cursor v = elim (dec_lt (write_position m) (read_position m + p.slot_count)) [
    | yes free ↦ rw (fills free) (
        moved v' (fills_header e (write_position m))
          (record {
            writing = record { room = w.room; position = refl; more = w.more };
            free = free;
          })
          (inr (ready_inside v refl)))
    | no at_end ↦ rw (full at_end) (moved v' producer_idle tt (inl refl))
  ]
    where
      w : IsWriting e (write_position m) p m
      w = v.producer_at

      v' : IsSound (threads (refreshed p m) c m (loads_read_cursor e (write_position m)) cpc) h
      v' = refreshed-IsSound v (record { room = w.room; position = refl; more = w.more })

      fills :
          write_position m < read_position m + p.slot_count
          → check_refreshed (refreshed p m) e (write_position m)
            ≡ goes_on (fills_header e (write_position m))
      fills f =
          unfold check_refreshed in
          ground (arith, v.linked.order, v.linked.width, v.linked.geometry.count_width)

      full :
          ¬ (write_position m < read_position m + p.slot_count)
          → check_refreshed (refreshed p m) e (write_position m) ≡ returns PublishResult.full
      full f =
          unfold check_refreshed in
          ground
            (arith, v.linked.order, v.linked.lap, v.linked.width, v.linked.geometry.count_width)

  small : {w : ℕ} → IsSound (threads p c m (fills_header e w) cpc) h → length e.payload < 2 ^ 32
  small v =
      omega
        (arith, v.producer_at.writing.room, v.linked.geometry.room, v.linked.geometry.stride_width)

  produce-fills_header :
      IsSound (threads p c m (fills_header e (write_position m)) cpc) h
      → ProduceIsSound p c m (fills_header e (write_position m)) cpc h
  unfolding publish_step produced fill_slot_header
  produce-fills_header v =
      replaced-IsSound v s (fills_payload e (write_position m)) v.producer_at.free
        (record { storage = f.storage; reserved0 = f.reserved0; reserved1 = f.reserved1 })
        (
          record {
            writing = record {
              room = v.producer_at.writing.room;
              position = refl;
              more = v.producer_at.writing.more;
            };
            free = v.producer_at.free;
          },
          rw (slot_at-replaced_self v.linked v.producer_at.free s) (record {
            sequence = refl;
            time = refl;
            stream = refl;
            size = omega (arith, small v);
          }),
        )
        (inr (ready_inside v refl))
    where
      s : Slot
      s = record (own_slot p m) { header = fill_slot_header (own_slot p m).header e }

      f : IsFormatted p.slot_stride (own_slot p m)
      f = v.linked.formatted (write_position m)

  produce-fills_payload :
      IsSound (threads p c m (fills_payload e (write_position m)) cpc) h
      → ProduceIsSound p c m (fills_payload e (write_position m)) cpc h
  unfolding publish_step produced
  produce-fills_payload v =
      replaced-IsSound v s (stores_write_cursor e (write_position m)) v.producer_at.0.free
        (record {
          storage = ap (λ n. 32 + n) (length-copy_at (own_slot p m).bytes 0 e.payload) ∙ f.storage;
          reserved0 = f.reserved0;
          reserved1 = f.reserved1;
        })
        (
          record {
            writing = record {
              room = v.producer_at.0.writing.room;
              position = refl;
              more = v.producer_at.0.writing.more;
            };
            free = v.producer_at.0.free;
          },
          ap slot_event same
              ∙ shown (own_slot p m) e v.producer_at.1
                  (omega (arith, f.storage, v.linked.geometry.room, v.producer_at.0.writing.room)),
          rw same (omega (arith, v.producer_at.1.size, v.producer_at.0.writing.room)),
        )
        (inr (ready_inside v refl))
    where
      s : Slot
      s = record (own_slot p m) { bytes = copy_at (own_slot p m).bytes 0 e.payload }

      f : IsFormatted p.slot_stride (own_slot p m)
      f = v.linked.formatted (write_position m)

      same : slot_at p (replaced p m s) (write_position m) ≡ s
      same = slot_at-replaced_self v.linked v.producer_at.0.free s

-- Every step of the producer keeps the invariant.
pub produce-IsSound :
    (p c : SpscRing) (m : Memory) (pc : ProducerPc) (cpc : ConsumerPc) (h : History)
    → IsSound (threads p c m pc cpc) h
    → ProduceIsSound p c m pc cpc h
produce-IsSound p c m producer_idle cpc h v = unfold publish_step produced in v
produce-IsSound p c m (checks_state e) cpc h v = produce-checks_state e v
produce-IsSound p c m (checks_room e) cpc h v = produce-checks_room e v
produce-IsSound p c m (loads_read_cursor e w) cpc h v =
    let at = v.producer_at.position in rw at (produce-loads_read_cursor e (rw at at v))
produce-IsSound p c m (fills_header e w) cpc h v =
    let at = v.producer_at.writing.position in rw at (produce-fills_header e (rw at at v))
produce-IsSound p c m (fills_payload e w) cpc h v =
    let at = v.producer_at.0.writing.position in rw at (produce-fills_payload e (rw at at v))
produce-IsSound p c m (stores_write_cursor e w) cpc h v =
    let at = v.producer_at.0.writing.position in
    rw at (unfold publish_step produced in stored-IsSound e (write_position m) (rw at at v))
