-- ===== src/Queue/Ids.antt =====
-- The ids of the device-queue, and the operations that change the table.
use chirpstack_network_serve.Prelude.{
  ℕ, ◌+◌, ◌<◌, ◌≡◌, refl, subst, ◌∙◌, Bool, false, ◌||◌, List, [], ◌∷◌, ◌++◌, ok, arith, ◌==◌,
  Bool-cases, Result-cases, inl, inr, All, All-append, All-mono, Result,
}
use chirpstack_network_serve.Profile.{DeviceProfile}
use chirpstack_network_serve.SessionData.{DeviceSession}
use chirpstack_network_serve.ClassB.{Encrypt}
use chirpstack_network_serve.Queue.{
  Item, Table, Error, schedule_item, insert_item, create_device_queue_item, update_rows, remove_if,
  has_id, update_device_queue_item, delete_device_queue_item, flush_device_queue,
}
use chirpstack_network_serve.Queue.Order.{All-remove_if}

-- Each id stands in one row: the column is a key.
abbrev pub UniqueIds : List Item → Type 0
UniqueIds [] = Unit
UniqueIds (i ∷ is) = (has_id i.id is ≡ false) × UniqueIds is

-- The ids are different, and all below the next one.
pub record IsTable (t : Table) : Type 0 where
  pub unique : UniqueIds t.rows
  pub below : All (λ i. i.id < t.next_id) t.rows

has_id-remove_if :
    (id : ℕ) (test : Item → Bool) (is : List Item)
    → has_id id is ≡ false
    → has_id id (remove_if test is) ≡ false
unfolding has_id remove_if
has_id-remove_if id test [] h = refl
has_id-remove_if id test (i ∷ is) h = ground (arith, has_id-remove_if id test is)

UniqueIds-remove_if :
    (test : Item → Bool) (is : List Item) → UniqueIds is → UniqueIds (remove_if test is)
unfolding remove_if
UniqueIds-remove_if test [] u = tt
UniqueIds-remove_if test (i ∷ is) u = elim (Bool-cases (test i)) [
  | inl e ↦ rw (e, remove_if) (UniqueIds-remove_if test is u.1)
  | inr e ↦ rw (e, remove_if) (has_id-remove_if i.id test is u.0, UniqueIds-remove_if test is u.1)
]

has_id-update_rows :
    (id : ℕ) (item : Item) (is : List Item) → has_id id (update_rows item is) ≡ has_id id is
unfolding has_id update_rows
has_id-update_rows id item [] = refl
has_id-update_rows id item (i ∷ is) = ground (arith, has_id-update_rows id item is)

UniqueIds-update_rows :
    (item : Item) (is : List Item) → UniqueIds is → UniqueIds (update_rows item is)
unfolding update_rows
UniqueIds-update_rows item [] u = tt
UniqueIds-update_rows item (i ∷ is) u = elim (Bool-cases (i.id == item.id)) [
  | inl e ↦
      let same : i.id ≡ item.id = ground arith in
      rw (e, update_rows)
        (
          subst (λ x. has_id x (update_rows item is) ≡ false) same
              (has_id-update_rows i.id item is ∙ u.0),
          UniqueIds-update_rows item is u.1,
        )
  | inr e ↦
      rw (e, update_rows) (has_id-update_rows i.id item is ∙ u.0, UniqueIds-update_rows item is u.1)
]

below-update_rows :
    (n : ℕ) (item : Item) (is : List Item)
    → All (λ i. i.id < n) is
    → All (λ i. i.id < n) (update_rows item is)
unfolding update_rows
below-update_rows n item [] a = tt
below-update_rows n item (i ∷ is) a = elim (Bool-cases (i.id == item.id)) [
  | inl e ↦ rw (e, update_rows) (ground (arith, a.0), below-update_rows n item is a.1)
  | inr e ↦ rw (e, update_rows) (a.0, below-update_rows n item is a.1)
]

has_id-append : (id : ℕ) (xs ys : List Item) → has_id id (xs ++ ys) ≡ (has_id id xs || has_id id ys)
unfolding has_id
has_id-append id [] ys = refl
has_id-append id (x ∷ xs) ys = ground (arith, has_id-append id xs ys)

UniqueIds-snoc :
    (is : List Item) (item : Item)
    → All (λ i. i.id < item.id) is
    → UniqueIds is
    → UniqueIds (is ++ item ∷ [])
unfolding has_id
UniqueIds-snoc [] item a u = (refl, tt)
UniqueIds-snoc (i ∷ is) item a u =
    (ground (arith, has_id-append i.id is (item ∷ []), a.0), UniqueIds-snoc is item a.1 u.1)

insert_item-IsTable : (t : Table) (item : Item) → IsTable t → IsTable (insert_item t item)
unfolding insert_item
insert_item-IsTable t item i = record {
  unique = UniqueIds-snoc t.rows (record item { id = t.next_id }) i.below i.unique;
  below =
      All-append (λ x. x.id < t.next_id + 1) t.rows (record item { id = t.next_id } ∷ [])
        (All-mono t.rows (λ x h. omega (arith, h)) i.below) (omega arith, tt);
}

-- The operations on the table.
pub data Operation : Type 0 where
  create : Encrypt → ℕ → DeviceProfile → DeviceSession → Item → Operation
  update : Item → Operation
  delete : ℕ → Operation
  flush : ℕ → Operation

unfoldable pub run : Operation → Table → Result Error Table
run (create encrypt now dp ds item) t = create_device_queue_item encrypt now dp ds t item
run (update item) t = update_device_queue_item t item
run (delete id) t = delete_device_queue_item t id
run (flush dev_eui) t = ok (flush_device_queue t dev_eui)

pub create_device_queue_item-ok :
    (encrypt : Encrypt) (now : ℕ) (dp : DeviceProfile) (ds : DeviceSession) (t u : Table)
    (item : Item)
    → create_device_queue_item encrypt now dp ds t item ≡ ok u
    → (item.f_port == 0 ≡ false)
      × ((i : Item) × (schedule_item encrypt now dp ds t item ≡ ok i) × (insert_item t i ≡ u))
unfolding create_device_queue_item
create_device_queue_item-ok encrypt now dp ds t u item h =
    elim (Result-cases (schedule_item encrypt now dp ds t item)) [
      | inl (i, e) ↦ (ground arith, (i, e, ground (arith, e)))
      | inr (x, e) ↦ absurd (ground (arith, e))
    ]

-- Every operation on the device-queue that succeeds keeps that.
run-IsTable : (op : Operation) (t u : Table) → IsTable t → run op t ≡ ok u → IsTable u
unfolding run update_device_queue_item delete_device_queue_item flush_device_queue
run-IsTable (create encrypt now dp ds item) t u i h =
    let (i', e, same) = (create_device_queue_item-ok encrypt now dp ds t u item h).1 in
    subst IsTable same (insert_item-IsTable t i' i)
run-IsTable (update item) t u i h =
    let same : record t { rows = update_rows item t.rows } ≡ u = ground arith in
    subst IsTable same (record {
      unique = UniqueIds-update_rows item t.rows i.unique;
      below = below-update_rows t.next_id item t.rows i.below;
    })
run-IsTable (delete id) t u i h =
    let same : record t { rows = remove_if (λ i. i.id == id) t.rows } ≡ u = ground arith in
    subst IsTable same (record {
      unique = UniqueIds-remove_if (λ i. i.id == id) t.rows i.unique;
      below = All-remove_if (λ i. i.id < t.next_id) (λ i. i.id == id) t.rows i.below;
    })
run-IsTable (flush dev_eui) t u i h =
    let same : record t { rows = remove_if (λ i. i.dev_eui == dev_eui) t.rows } ≡ u = cc in
    subst IsTable same (record {
      unique = UniqueIds-remove_if (λ i. i.dev_eui == dev_eui) t.rows i.unique;
      below = All-remove_if (λ i. i.id < t.next_id) (λ i. i.dev_eui == dev_eui) t.rows i.below;
    })
