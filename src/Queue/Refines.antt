-- ===== src/Queue/Refines.antt =====
-- The operations on the table, seen as operations on the sorted queues of the devices.
use chirpstack_network_serve.Prelude.{
  ℕ, ◌≤◌, ◌≡◌, refl, ap, sym, subst, ◌∙◌, Bool, true, false, ◌&&◌, List, [], ◌∷◌, ok, arith, ltb,
  ◌==◌, if◌then◌else◌, Bool-cases, List-cases, inl, inr, All, All-mono, All-every,
}
use chirpstack_network_serve.Queue.{
  Item, Table, precedes, schedule_item, insert_item, remove_if, update_rows, by_f_cnt,
  insert_by_f_cnt, get_device_queue_items, get_next_device_queue_item, get_device_queue_item_count,
  update_device_queue_item, delete_device_queue_item, flush_device_queue, is_after,
}
use chirpstack_network_serve.Queue.Ids.{
  Operation, create, update, delete, flush, run, create_device_queue_item-ok,
}
use chirpstack_network_serve.Queue.Order.{
  IsSorted, IsSorted-by_f_cnt, enqueue, by_f_cnt-snoc, by_f_cnt-remove_if, All-by_f_cnt,
  remove_if_every, remove_if_none,
}

-- The row is not the one to update, or has the device and the frame-counter of the new item.
abbrev SameKey : Item → Item → Type 0
SameKey item i = (i.id ≡ item.id) → (i.dev_eui ≡ item.dev_eui) × (i.f_cnt ≡ item.f_cnt)

-- An update does not change the columns that the queues are read by.
abbrev pub KeepsKey : Operation → Table → Type 0
KeepsKey (update item) t = All (SameKey item) t.rows
KeepsKey _ t = Unit

-- What an operation does to the queue of a device.
abbrev pub Refined : Operation → Table → Table → ℕ → Type 0
Refined (create encrypt now dp ds item) t u e =
    (i : Item) × (schedule_item encrypt now dp ds t item ≡ ok i)
    × (get_device_queue_items u e ≡ (
        if i.dev_eui == e
        then enqueue t.tie (record i { id = t.next_id }) (get_device_queue_items t e)
        else get_device_queue_items t e))
Refined (update item) t u e =
    get_device_queue_items u e ≡ update_rows item (get_device_queue_items t e)
Refined (delete id) t u e =
    get_device_queue_items u e ≡ remove_if (λ i. i.id == id) (get_device_queue_items t e)
Refined (flush dev_eui) t u e =
    get_device_queue_items u e ≡ (if dev_eui == e then [] else get_device_queue_items t e)

update_rows-insert_by_f_cnt :
    (tie : ℕ → ℕ)
    → (item a : Item) (xs : List Item) → SameKey item a
    → All (SameKey item) xs
    → update_rows item (insert_by_f_cnt tie a xs)
      ≡ insert_by_f_cnt tie (if a.id == item.id then item else a) (update_rows item xs)
unfolding update_rows insert_by_f_cnt
update_rows-insert_by_f_cnt tie item a [] k ks = ground arith
update_rows-insert_by_f_cnt tie item a (x ∷ xs) k ks =
    ground (arith, k, ks.0, update_rows-insert_by_f_cnt tie item a xs k ks.1)

by_f_cnt-update_rows :
    (tie : ℕ → ℕ)
    → (item : Item) (e : ℕ) (is : List Item) → All (SameKey item) is
    → by_f_cnt tie e (update_rows item is) ≡ update_rows item (by_f_cnt tie e is)
unfolding by_f_cnt update_rows
by_f_cnt-update_rows tie item e [] ks = refl
by_f_cnt-update_rows tie item e (i ∷ is) ks =
    let all = All-by_f_cnt tie (SameKey item) e is (All-mono is (λ x k _. k) ks.1) in
    ground (
      arith,
      ks.0,
      by_f_cnt-update_rows tie item e is ks.1,
      update_rows-insert_by_f_cnt tie item i (by_f_cnt tie e is) ks.0 all,
    )

flush-by_f_cnt :
    (tie : ℕ → ℕ)
    → (d e : ℕ) (is : List Item)
    → remove_if (λ i. i.dev_eui == d) (by_f_cnt tie e is)
      ≡ (if d == e then [] else by_f_cnt tie e is)
flush-by_f_cnt tie d e is = elim (Bool-cases (d == e)) [
  | inl same ↦ rw same (
      remove_if_every (λ i. i.dev_eui == d) (by_f_cnt tie e is)
        (All-by_f_cnt tie (λ i. i.dev_eui == d ≡ true) e is
          (All-every (λ i. i.dev_eui ≡ e → i.dev_eui == d ≡ true) is
            (λ i h. ground (arith, h, same)))))
  | inr other ↦ rw other (
      remove_if_none (λ i. i.dev_eui == d) (by_f_cnt tie e is)
        (All-by_f_cnt tie (λ i. i.dev_eui == d ≡ false) e is
          (All-every (λ i. i.dev_eui ≡ e → i.dev_eui == d ≡ false) is
            (λ i h. ground (arith, h, other)))))
]

-- The table implements a map of sorted queues: in the queue of each device, a created item (with
-- its ping-slot, and the next id) goes behind those of smaller frame-counter (and, among those of equal
-- frame-counter, where the database ranks it), an update
-- replaces the item with the id, a deletion takes it out, and a flush empties the queue of its device
-- and leaves the others, for updates that keep the device and the frame-counter.
pub run-Refined :
    (op : Operation) (t u : Table) (e : ℕ) → KeepsKey op t → run op t ≡ ok u → Refined op t u e
unfolding run get_device_queue_items insert_item update_device_queue_item delete_device_queue_item
    flush_device_queue
run-Refined (create encrypt now dp ds item) t u e k h =
    let (i, scheduled, same) = (create_device_queue_item-ok encrypt now dp ds t u item h).1 in
    (
      i,
      scheduled,
      ap (λ x. by_f_cnt x.tie e x.rows) (sym same)
          ∙ by_f_cnt-snoc t.tie e t.rows (record i { id = t.next_id }),
    )
run-Refined (update item) t u e k h =
    let same : record t { rows = update_rows item t.rows } ≡ u = ground arith in
    ap (λ x. by_f_cnt x.tie e x.rows) (sym same) ∙ by_f_cnt-update_rows t.tie item e t.rows k
run-Refined (delete id) t u e k h =
    let same : record t { rows = remove_if (λ i. i.id == id) t.rows } ≡ u = ground arith in
    ap (λ x. by_f_cnt x.tie e x.rows) (sym same)
    ∙ by_f_cnt-remove_if t.tie (λ i. i.id == id) e t.rows
run-Refined (flush dev_eui) t u e k h =
    let same : record t { rows = remove_if (λ i. i.dev_eui == dev_eui) t.rows } ≡ u = cc in
    ap (λ x. by_f_cnt x.tie e x.rows) (sym same)
    ∙ by_f_cnt-remove_if t.tie (λ i. i.dev_eui == dev_eui) e t.rows
    ∙ flush-by_f_cnt t.tie dev_eui e t.rows

-- No item of the device comes before it.
pub record IsNext (t : Table) (dev_eui now : ℕ) (qi : Item) (more : Bool) : Type 0 where
  pub of_device : qi.dev_eui ≡ dev_eui
  pub first : All (λ i. i.dev_eui ≡ dev_eui → qi.f_cnt ≤ i.f_cnt) t.rows
  pub more_items : more ≡ ltb 1 (get_device_queue_item_count t dev_eui)
  pub not_waiting : (qi.is_pending && is_after qi.timeout_after now) ≡ false

insert_by_f_cnt-All :
    (tie : ℕ → ℕ)
    → (P : Item → Type 0) (a : Item) (xs : List Item) → All P (insert_by_f_cnt tie a xs)
    → P a × All P xs
unfolding insert_by_f_cnt
insert_by_f_cnt-All tie P a [] h = h
insert_by_f_cnt-All tie P a (x ∷ xs) h = elim (Bool-cases (precedes tie a x)) [
  | inl e ↦ let h' : All P (a ∷ x ∷ xs) = rw e at h in h'
  | inr e ↦
      let h' : All P (x ∷ insert_by_f_cnt tie a xs) = rw e at h in
      let ih = insert_by_f_cnt-All tie P a xs h'.1 in (ih.0, (h'.0, ih.1))
]

pub by_f_cnt-All :
    (tie : ℕ → ℕ)
    → (P : Item → Type 0) (e : ℕ) (is : List Item) → All P (by_f_cnt tie e is)
    → All (λ i. i.dev_eui ≡ e → P i) is
unfolding by_f_cnt
by_f_cnt-All tie P e [] h = tt
by_f_cnt-All tie P e (i ∷ is) h = elim (Bool-cases (i.dev_eui == e)) [
  | inl same ↦
      let h' : All P (insert_by_f_cnt tie i (by_f_cnt tie e is)) = rw same at h in
      let r = insert_by_f_cnt-All tie P i (by_f_cnt tie e is) h' in
      ((λ _. r.0), by_f_cnt-All tie P e is r.1)
  | inr other ↦
      let h' : All P (by_f_cnt tie e is) = rw other at h in
      ((λ eq. absurd (ground arith)), by_f_cnt-All tie P e is h')
]

-- The next item is one of the device, no item of the device in the table has a smaller
-- frame-counter, the flag tells whether the queue holds more than one item, and the item is not one
-- that is pending and has not timed out.
pub get_next_device_queue_item-IsNext :
    (t : Table) (dev_eui now : ℕ) (qi : Item) (more : Bool)
    → get_next_device_queue_item t dev_eui now ≡ ok (qi, more)
    → IsNext t dev_eui now qi more
unfolding get_next_device_queue_item get_device_queue_items get_device_queue_item_count
get_next_device_queue_item-IsNext t e now qi more h =
    let queue = by_f_cnt t.tie e t.rows in
    let sorted = IsSorted-by_f_cnt t.tie e t.rows in
    let all =
      All-by_f_cnt t.tie (λ i. i.dev_eui ≡ e) e t.rows
        (All-every (λ i. i.dev_eui ≡ e → i.dev_eui ≡ e) t.rows (λ i k. k)) in
    elim (List-cases queue) [
      | inl none ↦ absurd (ground (arith, none))
      | inr (q, qs, some) ↦
          let sorted' : IsSorted (q ∷ qs) = subst IsSorted some sorted in
          let all' : All (λ i. i.dev_eui ≡ e) (q ∷ qs) =
            subst (All (λ i. i.dev_eui ≡ e)) some all in
          let same : q ≡ qi = ground (arith, h, some) in
          let least : All (λ i. q.f_cnt ≤ i.f_cnt) queue =
            subst (All (λ i. q.f_cnt ≤ i.f_cnt)) (sym some) (omega arith, sorted'.0) in
          record {
            of_device = subst (λ x. x.dev_eui ≡ e) same all'.0;
            first =
                subst (λ x. All (λ i. i.dev_eui ≡ e → x.f_cnt ≤ i.f_cnt) t.rows) same
                  (by_f_cnt-All t.tie (λ i. q.f_cnt ≤ i.f_cnt) e t.rows least);
            more_items = ground (arith, h, some);
            not_waiting = ground (arith, h, some);
          }
    ]
