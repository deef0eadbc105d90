-- ===== src/Downlink/NextItem/Future.antt =====
-- getNextDeviceQueueItem: the emission times of the items that were created anew.
use chirpstack_network_serve.Prelude.{
  ℕ, ◌<◌, ◌≡◌, refl, sym, subst, false, none, List, [], ◌∷◌, arith, Bool-cases, Option-cases,
  Result-cases, inl, inr, All, ◌⊎◌,
}
use chirpstack_network_serve.Gps
use chirpstack_network_serve.ClassB.{get_next_ping_slot_after}
use chirpstack_network_serve.ClassB.Next.{get_next_ping_slot_after-IsNext}
use chirpstack_network_serve.Queue.{
  Item, Table, get_device_queue_items, schedule_item, schedule_after, wants_ping_slot,
  get_max_emit_at, at_ping_slot,
}
use chirpstack_network_serve.Queue.Refines.{by_f_cnt-All}
use chirpstack_network_serve.Queue.Schedule.{ping_nb_bounds}
use chirpstack_network_serve.Downlink.NextItem.{Reading, emit_past}
use chirpstack_network_serve.Downlink.NextItem.Requeue.{Keeps}

-- The time of the reading, from the GPS epoch on.
abbrev gps_now : Reading → ℕ
gps_now r = Gps.time_since_gps_epoch r.now

get_max_emit_at-future :
    (r : Reading) (is : List Item)
    → All (λ i. i.dev_eui ≡ r.session.dev_eui → emit_past r i ≡ false) is
    → (get_max_emit_at r.session.dev_eui is ≡ 0)
      ⊎ (gps_now r < get_max_emit_at r.session.dev_eui is)
unfolding get_max_emit_at
get_max_emit_at-future r [] h = inl refl
get_max_emit_at-future r (i ∷ is) h =
    let ih = get_max_emit_at-future r is h.1 in
    elim (Option-cases i.emit_at_time_since_gps_epoch) [
      | inl e ↦ ground (arith, ih, e)
      | inr (t, e) ↦ ground (arith, ih, e, h.0)
    ]

schedule_after-now :
    (r : Reading) (t : Table) (item : Item)
    → item.dev_eui ≡ r.session.dev_eui
    → (get_max_emit_at r.session.dev_eui t.rows ≡ 0)
      ⊎ (gps_now r < get_max_emit_at r.session.dev_eui t.rows)
    → gps_now r < schedule_after t item.dev_eui r.now
unfolding schedule_after
schedule_after-now r t item d max =
    subst (λ e. gps_now r < schedule_after t e r.now) (sym d) (ground (arith, max))

-- An item without a timing is not scheduled in the past, for a queue that has no item in the past.
pub emit_past-Keeps :
    (r : Reading)
    → Keeps r (λ i. emit_past r i ≡ false) (λ i. i.emit_at_time_since_gps_epoch ≡ none)
unfolding schedule_item get_device_queue_items
emit_past-Keeps r t item i id p d q h =
    elim (Bool-cases (wants_ping_slot r.device_profile r.session item)) [
      | inr w ↦ ground (arith, w, h, q)
      | inl w ↦
          let after = schedule_after t item.dev_eui r.now in
          elim (Result-cases
            (get_next_ping_slot_after r.encrypt after r.session.dev_addr r.session.ping_slot_nb)) [
              | inr (x, e) ↦ absurd (ground (arith, w, e, h))
              | inl (emit, e) ↦
                  let nb =
                    ping_nb_bounds r.encrypt after r.session.dev_addr r.session.ping_slot_nb emit
                      e in
                  let (emit', e', next) =
                    get_next_ping_slot_after-IsNext r.encrypt after r.session.dev_addr
                      r.session.ping_slot_nb nb.0 nb.1 in
                  let emit_same : emit' ≡ emit = cc in
                  let later : after < emit' = next.later in
                  let max =
                    get_max_emit_at-future r t.rows (
                      by_f_cnt-All t.tie (λ x. emit_past r x ≡ false) r.session.dev_eui t.rows p) in
                  let now_after : gps_now r < after = schedule_after-now r t item d max in
                  let i_same : at_ping_slot r.device_profile item emit ≡ i =
                    ground (arith, w, e, h) in
                  subst (λ x. emit_past r x ≡ false) i_same
                    (ground (arith, later, now_after, emit_same))
            ]
    ]
