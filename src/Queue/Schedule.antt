-- ===== src/Queue/Schedule.antt =====
-- CreateDeviceQueueItem for a Class-B device: the ping-slot of the item.
use chirpstack_network_serve.Prelude.{
  ℕ, ◌+◌, ◌/◌, ◌≤◌, ◌<◌, ◌≡◌, ap, sym, subst, true, Option, none, some, List, [], ◌∷◌, ◌++◌, ok,
  arith, ltb, Bool-cases, inl, inr, All, All-mono, Result-cases, ltb→lt, ltb→le,
}
use chirpstack_network_serve.ClassB.{
  Encrypt, get_next_ping_slot_after, next_from, get_ping_offset, ping_period_base,
}
use chirpstack_network_serve.ClassB.Next
use chirpstack_network_serve.ClassB.Next.{get_next_ping_slot_after-IsNext}
use chirpstack_network_serve.Profile.{DeviceProfile}
use chirpstack_network_serve.SessionData.{DeviceSession}
use chirpstack_network_serve.Queue.{
  Item, Table, at_least, get_max_emit_at, schedule_after, class_b_schedule_margin, wants_ping_slot,
  at_ping_slot, schedule_item, insert_item, create_device_queue_item,
}
use chirpstack_network_serve.Queue.Ids.{create_device_queue_item-ok}

-- The emission time of a queued item, or 0.
abbrev pub emit_or_0 : Option ℕ → ℕ
emit_or_0 none = 0
emit_or_0 (some t) = t

at_least-le : (o : Option ℕ) (m : ℕ) → (emit_or_0 o ≤ at_least o m) × (m ≤ at_least o m)
at_least-le none m = (omega arith, omega arith)
at_least-le (some n) m = (ground arith, ground arith)

get_max_emit_at-max :
    (e : ℕ) (is : List Item)
    → All (λ i. i.dev_eui ≡ e → emit_or_0 i.emit_at_time_since_gps_epoch ≤ get_max_emit_at e is) is
unfolding get_max_emit_at
get_max_emit_at-max e [] = tt
get_max_emit_at-max e (i ∷ is) =
    let b = at_least-le i.emit_at_time_since_gps_epoch (get_max_emit_at e is) in
    let grows : get_max_emit_at e is ≤ get_max_emit_at e (i ∷ is) = ground (arith, b.1) in
    let here : i.dev_eui ≡ e
        → emit_or_0 i.emit_at_time_since_gps_epoch ≤ get_max_emit_at e (i ∷ is) =
      λ k. ground (arith, b.0) in
    (here, All-mono is (λ x h k. omega (arith, h k, grows)) (get_max_emit_at-max e is))

schedule_after-max :
    (t : Table) (e now : ℕ)
    → get_max_emit_at e t.rows + class_b_schedule_margin ≤ schedule_after t e now
unfolding schedule_after
schedule_after-max t e now = ground arith

-- A success shows that the number of ping-slots is from 1 to 4096.
pub ping_nb_bounds :
    (encrypt : Encrypt) (after dev_addr ping_nb t : ℕ)
    → get_next_ping_slot_after encrypt after dev_addr ping_nb ≡ ok t
    → (0 < ping_nb) × (ping_nb ≤ ping_period_base)
unfolding get_next_ping_slot_after next_from get_ping_offset
ping_nb_bounds encrypt after dev_addr ping_nb t h = (
  ground arith,
  elim (Bool-cases (ltb ping_period_base ping_nb)) [
    | inl e ↦
        let lt = ltb→lt ping_period_base ping_nb e in
        let zero : ping_period_base / ping_nb ≡ 0 = grind arith in absurd (ground (arith, zero))
    | inr e ↦ ltb→le ping_period_base ping_nb e
  ],
)

-- An item that is created with a ping-slot, for a device with a beacon, is put at the end of the
-- table, at the next ping-slot after the last emission time of the device's queue (or after now for
-- an empty one) and the margin: later by the margin than each item of the device that is queued.
pub create_device_queue_item-ping_slot :
    (encrypt : Encrypt) (now : ℕ) (dp : DeviceProfile) (ds : DeviceSession) (t u : Table)
    (item : Item)
    → wants_ping_slot dp ds item ≡ true
    → create_device_queue_item encrypt now dp ds t item ≡ ok u
    → (emit : ℕ) × (u.rows ≡ t.rows ++ record (at_ping_slot dp item emit) { id = t.next_id } ∷ [])
      × Next.IsNext encrypt (schedule_after t item.dev_eui now) ds.dev_addr ds.ping_slot_nb emit
      × All
          (λ i.
            i.dev_eui ≡ item.dev_eui
            → emit_or_0 i.emit_at_time_since_gps_epoch + class_b_schedule_margin < emit)
          t.rows
unfolding schedule_item insert_item
create_device_queue_item-ping_slot encrypt now dp ds t u item wants h =
    let (i, scheduled, same) = (create_device_queue_item-ok encrypt now dp ds t u item h).1 in
    let after = schedule_after t item.dev_eui now in
    elim (Result-cases (get_next_ping_slot_after encrypt after ds.dev_addr ds.ping_slot_nb)) [
      | inl (emit, e) ↦
          let nb = ping_nb_bounds encrypt after ds.dev_addr ds.ping_slot_nb emit e in
          let (emit', e', next) =
            get_next_ping_slot_after-IsNext encrypt after ds.dev_addr ds.ping_slot_nb nb.0 nb.1 in
          let emit_same : emit' ≡ emit = cc in
          let is_next =
            subst (Next.IsNext encrypt after ds.dev_addr ds.ping_slot_nb) emit_same next in
          let later = is_next.later in
          let i_same : at_ping_slot dp item emit ≡ i = ground (arith, scheduled, wants, e) in
          let margin = schedule_after-max t item.dev_eui now in
          (
            emit,
            subst (λ x. u.rows ≡ t.rows ++ record x { id = t.next_id } ∷ []) (sym i_same)
                (ap (λ x. x.rows) (sym same)),
            is_next,
            All-mono t.rows (λ x k d. omega (arith, k d, later, margin))
                (get_max_emit_at-max item.dev_eui t.rows),
          )
      | inr (x, e) ↦ absurd (ground (arith, scheduled, wants, e))
    ]
