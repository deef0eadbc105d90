-- ===== src/Downlink/NextItem/Requeue.antt =====
-- getNextDeviceQueueItem: the device's queue after it was filled anew.
use chirpstack_network_serve.Prelude.{
  ℕ, ◌+◌, ◌≤◌, ◌≡◌, refl, ap, sym, subst, ◌∙◌, Bool, true, false, ◌||◌, List, [], ◌∷◌, ok, arith,
  ◌==◌, Bool-cases, Result-cases, inl, inr, length, All,
}
use chirpstack_network_serve.ClassB.{get_next_ping_slot_after}
use chirpstack_network_serve.Queue.{
  Item, Table, get_device_queue_items, create_device_queue_item, schedule_item, schedule_after,
  wants_ping_slot,
}
use chirpstack_network_serve.Queue.Order.{enqueue, goes_before}
use chirpstack_network_serve.Queue.Ids.{create, run}
use chirpstack_network_serve.Queue.Refines.{run-Refined}
use chirpstack_network_serve.Downlink.NextItem.{Reading, create_all}

-- The queue of the reading's device.
abbrev pub items_of : Reading → Table → List Item
items_of r t = get_device_queue_items t r.session.dev_eui

-- An item of the frame-counter is in the list.
abbrev pub holds_f_cnt : ℕ → List Item → Bool
holds_f_cnt s [] = false
holds_f_cnt s (i ∷ is) = i.f_cnt == s || holds_f_cnt s is

length-enqueue :
    (tie : ℕ → ℕ) (a : Item) (xs : List Item) → length (enqueue tie a xs) ≡ length xs + 1
length-enqueue tie a [] = refl
length-enqueue tie a (x ∷ xs) = ground (arith, length-enqueue tie a xs)

holds_f_cnt-enqueue :
    (tie : ℕ → ℕ) (s : ℕ) (a : Item) (xs : List Item)
    → holds_f_cnt s (enqueue tie a xs) ≡ (a.f_cnt == s || holds_f_cnt s xs)
holds_f_cnt-enqueue tie s a [] = refl
holds_f_cnt-enqueue tie s a (x ∷ xs) = ground (arith, holds_f_cnt-enqueue tie s a xs)

All-enqueue :
    (tie : ℕ → ℕ) (P : Item → Type 0) (a : Item) (xs : List Item)
    → P a
    → All P xs
    → All P (enqueue tie a xs)
All-enqueue tie P a [] p h = (p, tt)
All-enqueue tie P a (x ∷ xs) p h = elim (Bool-cases (goes_before tie a x)) [
  | inl e ↦ rw e (p, h)
  | inr e ↦ rw e (h.0, All-enqueue tie P a xs p h.1)
]

-- The item as it is created keeps its device and frame-counter.
schedule_item-key :
    (r : Reading) (t : Table) (item i : Item)
    → schedule_item r.encrypt r.now r.device_profile r.session t item ≡ ok i
    → (i.dev_eui ≡ item.dev_eui) × (i.f_cnt ≡ item.f_cnt)
unfolding schedule_item
schedule_item-key r t item i h =
    elim (Bool-cases (wants_ping_slot r.device_profile r.session item)) [
      | inr w ↦ ground (arith, w, h)
      | inl w ↦
          elim (Result-cases (
            get_next_ping_slot_after r.encrypt (schedule_after t item.dev_eui r.now)
              r.session.dev_addr r.session.ping_slot_nb)) [
                | inl (x, e) ↦ ground (arith, w, e, h)
                | inr (x, e) ↦ absurd (ground (arith, w, e, h))
              ]
    ]

-- The item stands in the queue with the others.
record Created (r : Reading) (t u : Table) (item : Item) : Type 0 where
  i : Item
  scheduled : schedule_item r.encrypt r.now r.device_profile r.session t item ≡ ok i
  queued : items_of r u ≡ enqueue t.tie (record i { id = t.next_id }) (items_of r t)
  same_f_cnt : i.f_cnt ≡ item.f_cnt

create-Created :
    (r : Reading) (t u : Table) (item : Item)
    → item.dev_eui ≡ r.session.dev_eui
    → create_device_queue_item r.encrypt r.now r.device_profile r.session t item ≡ ok u
    → Created r t u item
unfolding run
create-Created r t u item d h =
    let (i, s, q) =
      run-Refined (create r.encrypt r.now r.device_profile r.session item) t u r.session.dev_eui tt
        h in
    let key = schedule_item-key r t item i s in
    let same : i.dev_eui == r.session.dev_eui ≡ true = ground (arith, key.0, d) in
    record { i = i; scheduled = s; queued = ground (arith, q, same); same_f_cnt = key.1 }

create_all-step :
    (r : Reading) (t u : Table) (item : Item) (is : List Item)
    → create_all r t (item ∷ is) ≡ (u, ok tt)
    → (v : Table) × (create_device_queue_item r.encrypt r.now r.device_profile r.session t item
        ≡ ok v)
      × (create_all r v is ≡ (u, ok tt))
unfolding create_all
create_all-step r t u item is h =
    elim (Result-cases
      (create_device_queue_item r.encrypt r.now r.device_profile r.session t item)) [
        | inl (v, e) ↦ (v, e, ground (arith, e, h))
        | inr (x, e) ↦ absurd (ground (arith, e, h))
      ]

abbrev pub OfDevice : Reading → List Item → Type 0
OfDevice r = All (λ i. i.dev_eui ≡ r.session.dev_eui)

pub create_all-length :
    (r : Reading) (t u : Table) (items : List Item)
    → OfDevice r items
    → create_all r t items ≡ (u, ok tt)
    → length (items_of r u) ≡ length (items_of r t) + length items
unfolding create_all
create_all-length r t u [] d h =
    let same : t ≡ u = ground (arith, h) in
    subst (λ x. length (items_of r x) ≡ length (items_of r t) + 0) same (omega arith)
create_all-length r t u (item ∷ is) d h =
    let (v, made, rest) = create_all-step r t u item is h in
    let c = create-Created r t v item d.0 made in
    let one : length (items_of r v) ≡ length (items_of r t) + 1 =
      ap length c.queued ∙ length-enqueue t.tie (record c.i { id = t.next_id }) (items_of r t) in
    omega (arith, create_all-length r v u is d.1 rest, one)

pub create_all-holds :
    (r : Reading) (s : ℕ) (t u : Table) (items : List Item)
    → OfDevice r items
    → create_all r t items ≡ (u, ok tt)
    → holds_f_cnt s (items_of r u) ≡ (holds_f_cnt s (items_of r t) || holds_f_cnt s items)
unfolding create_all
create_all-holds r s t u [] d h =
    let same : t ≡ u = ground (arith, h) in
    subst (λ x. holds_f_cnt s (items_of r x) ≡ (holds_f_cnt s (items_of r t) || false)) same
      (ground arith)
create_all-holds r s t u (item ∷ is) d h =
    let (v, made, rest) = create_all-step r t u item is h in
    let c = create-Created r t v item d.0 made in
    let one =
      ap (holds_f_cnt s) c.queued
      ∙ holds_f_cnt-enqueue t.tie s (record c.i { id = t.next_id }) (items_of r t) in
    ground (arith, create_all-holds r s v u is d.1 rest, one, c.same_f_cnt)

-- What a created item has for a queue whose items have it.
abbrev pub Keeps : Reading → (Item → Type 0) → (Item → Type 0) → Type 0
Keeps r P Q =
    (t : Table) (item i : Item) (id : ℕ)
    → All P (items_of r t)
    → item.dev_eui ≡ r.session.dev_eui
    → Q item
    → schedule_item r.encrypt r.now r.device_profile r.session t item ≡ ok i
    → P (record i { id = id })

pub create_all-All :
    (r : Reading) (P Q : Item → Type 0) (t u : Table) (items : List Item)
    → Keeps r P Q
    → OfDevice r items
    → All P (items_of r t)
    → All Q items
    → create_all r t items ≡ (u, ok tt)
    → All P (items_of r u)
unfolding create_all
create_all-All r P Q t u [] k d p q h =
    let same : t ≡ u = ground (arith, h) in subst (λ x. All P (items_of r x)) same p
create_all-All r P Q t u (item ∷ is) k d p q h =
    let (v, made, rest) = create_all-step r t u item is h in
    let c = create-Created r t v item d.0 made in
    let new = k t item c.i t.next_id p d.0 q.0 c.scheduled in
    let all : All P (items_of r v) =
      subst (All P) (sym c.queued)
        (All-enqueue t.tie P (record c.i { id = t.next_id }) (items_of r t) new p) in
    create_all-All r P Q v u is k d.1 all q.1 rest

pub at_least-Keeps : (r : Reading) (s : ℕ) → Keeps r (λ i. s ≤ i.f_cnt) (λ i. s ≤ i.f_cnt)
at_least-Keeps r s t item i id p d q h = omega (arith, (schedule_item-key r t item i h).1, q)
