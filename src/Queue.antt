-- ===== src/Queue.antt =====
-- internal/storage/device_queue.go: the device-queue, as a table of items with the SQL statements of
-- the file written out. The statements succeed; an error is one that the file itself returns.
-- Instants and durations are nanoseconds from the GPS epoch on; CreatedAt and UpdatedAt are only
-- stored, and left out. The order of items of equal frame-counter, which the statements leave open,
-- is a parameter: a rank of their ids, the same at each read.
pub mod Ids
pub mod Order
pub mod Refines
pub mod Reads
pub mod Schedule
pub mod Schedulable
use chirpstack_network_serve.Prelude.{
  ℕ, ◌+◌, ◌*◌, Bool, true, false, not, ◌&&◌, ◌||◌, Option, none, some, List, [], ◌∷◌, ◌++◌, Result,
  ok, err, ◌>>=◌, ltb, leb, ◌==◌, if◌then◌else◌, length,
}
use chirpstack_network_serve.Gps
use chirpstack_network_serve.Gps.{second}
use chirpstack_network_serve.ClassB
use chirpstack_network_serve.ClassB.{Encrypt, get_next_ping_slot_after}
use chirpstack_network_serve.Profile.{DeviceProfile}
use chirpstack_network_serve.SessionData.{DeviceSession}
use chirpstack_network_serve.Device.{DeviceMode, mode_a, mode_b, mode_c}

-- classBScheduleMargin
abbrev pub class_b_schedule_margin : ℕ
class_b_schedule_margin = 5 * second

-- DeviceQueueItem
pub record Item : Type 0 where
  pub id : ℕ
  pub dev_addr : ℕ
  pub dev_eui : ℕ
  pub frm_payload : List ℕ
  pub f_cnt : ℕ
  pub f_port : ℕ
  pub confirmed : Bool
  pub is_pending : Bool
  pub emit_at_time_since_gps_epoch : Option ℕ
  pub timeout_after : Option ℕ
  pub retry_after : Option ℕ

-- The table device_queue, with the next value of its id column, and the rank by which the database
-- orders the rows of equal frame-counter.
pub record Table : Type 0 where
  pub tie : ℕ → ℕ
  pub next_id : ℕ
  pub rows : List Item

pub data Error : Type 0 where
  invalid_f_port does_not_exist : Error
  ping_slot : ClassB.Error → Error

-- Validate
abbrev pub validate : Item → Result Error (Unit {0})
validate item = if item.f_port == 0 then err invalid_f_port else ok tt

abbrev pub at_least : Option ℕ → ℕ → ℕ
at_least none m = m
at_least (some n) m = if ltb m n then n else m

-- GetMaxEmitAtTimeSinceGPSEpochForDevEUI
unfoldable pub get_max_emit_at : ℕ → List Item → ℕ
get_max_emit_at dev_eui [] = 0
get_max_emit_at dev_eui (i ∷ is) =
    let rest = get_max_emit_at dev_eui is in
    if i.dev_eui == dev_eui then at_least i.emit_at_time_since_gps_epoch rest else rest

-- The time after which an item is scheduled: the last queued one, or now, with the margin.
unfoldable pub schedule_after : Table → ℕ → ℕ → ℕ
schedule_after table dev_eui now =
    (if get_max_emit_at dev_eui table.rows == 0
      then Gps.time_since_gps_epoch now
      else get_max_emit_at dev_eui table.rows)
    + class_b_schedule_margin

abbrev is_none : Option ℕ → Bool
is_none none = true
is_none (some n) = false

-- The item gets the next ping-slot, if the device has a beacon and the item no timing.
abbrev pub wants_ping_slot : DeviceProfile → DeviceSession → Item → Bool
wants_ping_slot dp ds item =
    is_none item.timeout_after
    && is_none item.emit_at_time_since_gps_epoch
    && dp.supports_class_b
    && ds.beacon_locked

abbrev pub at_ping_slot : DeviceProfile → Item → ℕ → Item
at_ping_slot dp item t = record item {
  emit_at_time_since_gps_epoch = some t;
  timeout_after = some (Gps.new_from_time_since_gps_epoch t + second * dp.class_b_timeout);
}

unfoldable pub schedule_item :
    Encrypt → ℕ → DeviceProfile → DeviceSession → Table → Item → Result Error Item
schedule_item encrypt now dp ds table item =
    if wants_ping_slot dp ds item
    then elim (get_next_ping_slot_after encrypt (schedule_after table item.dev_eui now) ds.dev_addr
        ds.ping_slot_nb) [ err e ↦ err (ping_slot e) | ok t ↦ ok (at_ping_slot dp item t) ]
    else ok item

-- The insert statement.
unfoldable pub insert_item : Table → Item → Table
insert_item table item = record table {
  next_id = table.next_id + 1;
  rows = table.rows ++ record item { id = table.next_id } ∷ [];
}

-- CreateDeviceQueueItem: the table with the item, whose id is the next one.
unfoldable pub create_device_queue_item :
    Encrypt → ℕ → DeviceProfile → DeviceSession → Table → Item → Result Error Table
create_device_queue_item encrypt now dp ds table item = do
  valid ← validate item
  scheduled ← schedule_item encrypt now dp ds table item
  ok (insert_item table scheduled)

unfoldable pub find_item : ℕ → List Item → Option Item
find_item id [] = none
find_item id (i ∷ is) = let rest = find_item id is in if i.id == id then some i else rest

-- GetDeviceQueueItem
unfoldable pub get_device_queue_item : Table → ℕ → Result Error Item
get_device_queue_item table id = elim (find_item id table.rows) [
  | none ↦ err does_not_exist
  | some i ↦ ok i
]

unfoldable pub update_rows : Item → List Item → List Item
update_rows item [] = []
update_rows item (i ∷ is) =
    let rest = update_rows item is in if i.id == item.id then item ∷ rest else i ∷ rest

-- `delete from device_queue where`
unfoldable pub remove_if : (Item → Bool) → List Item → List Item
remove_if test [] = []
remove_if test (i ∷ is) = let rest = remove_if test is in if test i then rest else i ∷ rest

unfoldable pub has_id : ℕ → List Item → Bool
has_id id [] = false
has_id id (i ∷ is) = i.id == id || has_id id is

-- UpdateDeviceQueueItem
unfoldable pub update_device_queue_item : Table → Item → Result Error Table
update_device_queue_item table item =
    if has_id item.id table.rows
    then ok (record table { rows = update_rows item table.rows })
    else err does_not_exist

-- DeleteDeviceQueueItem
unfoldable pub delete_device_queue_item : Table → ℕ → Result Error Table
delete_device_queue_item table id =
    if has_id id table.rows
    then ok (record table { rows = remove_if (λ i. i.id == id) table.rows })
    else err does_not_exist

-- FlushDeviceQueueForDevEUI
unfoldable pub flush_device_queue : Table → ℕ → Table
flush_device_queue table dev_eui = record table {
  rows = remove_if (λ i. i.dev_eui == dev_eui) table.rows;
}

-- `order by f_cnt`
abbrev pub precedes : (ℕ → ℕ) → Item → Item → Bool
precedes tie a x = ltb a.f_cnt x.f_cnt || (a.f_cnt == x.f_cnt && leb (tie a.id) (tie x.id))

unfoldable pub insert_by_f_cnt : (ℕ → ℕ) → Item → List Item → List Item
insert_by_f_cnt tie a [] = a ∷ []
insert_by_f_cnt tie a (x ∷ xs) =
    let rest = insert_by_f_cnt tie a xs in if precedes tie a x then a ∷ x ∷ xs else x ∷ rest

unfoldable pub by_f_cnt : (ℕ → ℕ) → ℕ → List Item → List Item
unfolding insert_by_f_cnt
by_f_cnt tie dev_eui [] = []
by_f_cnt tie dev_eui (i ∷ is) =
    let rest = by_f_cnt tie dev_eui is in
    if i.dev_eui == dev_eui then insert_by_f_cnt tie i rest else rest

-- GetDeviceQueueItemsForDevEUI
unfoldable pub get_device_queue_items : Table → ℕ → List Item
get_device_queue_items table dev_eui = by_f_cnt table.tie dev_eui table.rows

abbrev pub is_after : Option ℕ → ℕ → Bool
is_after none now = false
is_after (some t) now = ltb now t

abbrev non_empty : List Item → Bool
non_empty [] = false
non_empty (i ∷ is) = true

-- GetNextDeviceQueueItemForDevEUI: the item and whether there are more; `limit 2` reads enough of
-- the queue for both.
unfoldable pub get_next_device_queue_item : Table → ℕ → ℕ → Result Error (Item × Bool)
unfolding get_device_queue_items
get_next_device_queue_item table dev_eui now = elim (get_device_queue_items table dev_eui) [
  | [] ↦ err does_not_exist
  | qi ∷ rest ↦
      if qi.is_pending && is_after qi.timeout_after now
      then err does_not_exist
      else ok (qi, non_empty rest)
]

-- GetPendingDeviceQueueItemForDevEUI
unfoldable pub get_pending_device_queue_item : Table → ℕ → Result Error Item
unfolding get_device_queue_items
get_pending_device_queue_item table dev_eui = elim (get_device_queue_items table dev_eui) [
  | [] ↦ err does_not_exist
  | qi ∷ rest ↦ if qi.is_pending then ok qi else err does_not_exist
]

-- GetDeviceQueueItemCountForDevEUI
unfoldable pub get_device_queue_item_count : Table → ℕ → ℕ
unfolding get_device_queue_items
get_device_queue_item_count table dev_eui = length (get_device_queue_items table dev_eui)
