-- ===== src/Queue/Reads.antt =====
-- GetDeviceQueueItem after an operation on the table.
use chirpstack_network_serve.Prelude.{
  ℕ, ◌<◌, ◌≡◌, refl, subst, true, false, Option, none, some, List, [], ◌∷◌, ◌++◌, ok, err, arith,
  ◌==◌, if◌then◌else◌, Bool-cases, inl, inr, All, Result,
}
use chirpstack_network_serve.Queue.{
  Item, Table, Error, does_not_exist, schedule_item, insert_item, remove_if, update_rows, has_id,
  find_item, get_device_queue_item, update_device_queue_item, delete_device_queue_item,
  flush_device_queue,
}
use chirpstack_network_serve.Queue.Ids.{
  Operation, create, update, delete, flush, run, IsTable, UniqueIds, create_device_queue_item-ok,
}

find_item-append :
    (id : ℕ) (is : List Item) (item : Item)
    → All (λ i. i.id < item.id) is
    → find_item id (is ++ item ∷ []) ≡ (if item.id == id then some item else find_item id is)
unfolding find_item
find_item-append id [] item a = ground arith
find_item-append id (i ∷ is) item a = ground (arith, a.0, find_item-append id is item a.1)

update_rows-absent :
    (item : Item) (is : List Item) → has_id item.id is ≡ false → update_rows item is ≡ is
unfolding update_rows has_id
update_rows-absent item [] h = refl
update_rows-absent item (i ∷ is) h = ground (arith, update_rows-absent item is)

find_item-update_rows :
    (id : ℕ) (item : Item) (is : List Item)
    → has_id item.id is ≡ true
    → find_item id (update_rows item is) ≡ (if item.id == id then some item else find_item id is)
unfolding find_item update_rows has_id
find_item-update_rows id item [] h = cc
find_item-update_rows id item (i ∷ is) h = elim (Bool-cases (has_id item.id is)) [
  | inl e ↦ ground (arith, find_item-update_rows id item is e)
  | inr e ↦ ground (arith, e, h, update_rows-absent item is e)
]

find_item-delete :
    (id d : ℕ) (is : List Item)
    → find_item id (remove_if (λ i. i.id == d) is) ≡ (if d == id then none else find_item id is)
unfolding find_item remove_if
find_item-delete id d [] = ground arith
find_item-delete id d (i ∷ is) = ground (arith, find_item-delete id d is)

-- The item, unless it belongs to the device.
abbrev pub of_other : ℕ → Option Item → Option Item
of_other d none = none
of_other d (some i) = if i.dev_eui == d then none else some i

find_item-absent : (id : ℕ) (is : List Item) → has_id id is ≡ false → find_item id is ≡ none
unfolding find_item has_id
find_item-absent id [] h = refl
find_item-absent id (i ∷ is) h = ground (arith, find_item-absent id is)

find_item-flush :
    (id d : ℕ) (is : List Item)
    → UniqueIds is
    → find_item id (remove_if (λ i. i.dev_eui == d) is) ≡ of_other d (find_item id is)
unfolding find_item remove_if
find_item-flush id d [] u = refl
find_item-flush id d (i ∷ is) u = elim (Bool-cases (i.id == id)) [
  | inl e ↦
      let same : i.id ≡ id = ground arith in
      let absent = find_item-absent id is (subst (λ x. has_id x is ≡ false) same u.0) in
      ground (arith, e, absent, find_item-flush id d is u.1)
  | inr e ↦ ground (arith, e, find_item-flush id d is u.1)
]

abbrev to_result : Option Item → Result Error Item
to_result none = err does_not_exist
to_result (some i) = ok i

-- What is read after an operation.
abbrev pub Reads : Operation → Table → Table → ℕ → Type 0
Reads (create encrypt now dp ds item) t u id =
    (i : Item) × (schedule_item encrypt now dp ds t item ≡ ok i)
    × (get_device_queue_item u id ≡ (
        if t.next_id == id then ok (record i { id = t.next_id }) else get_device_queue_item t id))
Reads (update item) t u id =
    get_device_queue_item u id ≡ (if item.id == id then ok item else get_device_queue_item t id)
Reads (delete d) t u id =
    get_device_queue_item u id
    ≡ (if d == id then err does_not_exist else get_device_queue_item t id)
Reads (flush d) t u id = get_device_queue_item u id ≡ to_result (of_other d (find_item id t.rows))

-- After an operation that succeeds, a read by id returns the created item under its new id, the
-- updated item under its id, nothing for a deleted id and for the items of a flushed device, and
-- otherwise what it returned before.
pub run-Reads :
    (op : Operation) (t u : Table) (id : ℕ) → IsTable t → run op t ≡ ok u → Reads op t u id
unfolding run get_device_queue_item insert_item update_device_queue_item delete_device_queue_item
    flush_device_queue
run-Reads (create encrypt now dp ds item) t u id i h =
    let (x, scheduled, same) = (create_device_queue_item-ok encrypt now dp ds t u item h).1 in
    (
      x,
      scheduled,
      subst
          (λ v. get_device_queue_item v id ≡ (
            if t.next_id == id
            then ok (record x { id = t.next_id })
            else get_device_queue_item t id))
          same (ground (arith, find_item-append id t.rows (record x { id = t.next_id }) i.below)),
    )
run-Reads (update item) t u id i h =
    let same : record t { rows = update_rows item t.rows } ≡ u = ground arith in
    let known : has_id item.id t.rows ≡ true = ground arith in
    subst
      (λ v.
        get_device_queue_item v id
        ≡ (if item.id == id then ok item else get_device_queue_item t id))
      same (ground (arith, find_item-update_rows id item t.rows known))
run-Reads (delete d) t u id i h =
    let same : record t { rows = remove_if (λ i. i.id == d) t.rows } ≡ u = ground arith in
    subst
      (λ v.
        get_device_queue_item v id
        ≡ (if d == id then err does_not_exist else get_device_queue_item t id))
      same (ground (arith, find_item-delete id d t.rows))
run-Reads (flush d) t u id i h =
    let same : record t { rows = remove_if (λ i. i.dev_eui == d) t.rows } ≡ u = cc in
    subst (λ v. get_device_queue_item v id ≡ to_result (of_other d (find_item id t.rows))) same
      (ground (arith, find_item-flush id d t.rows i.unique))
