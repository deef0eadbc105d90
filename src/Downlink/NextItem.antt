-- ===== src/Downlink/NextItem.antt =====
-- getNextDeviceQueueItem of internal/downlink/data/data.go: the loop that finds the item to send.
-- The clock is read once; the calls of the application-server are a parameter, and so is the size of
-- the first opportunity, without which the code returns an error at once.
pub mod Usable
pub mod Requeue
pub mod Future
pub mod Rank
pub mod Ends
pub mod Loop
use chirpstack_network_serve.Prelude.{
  ℕ, zero, suc, ◌*◌, Bool, true, false, not, ◌&&◌, ◌||◌, Option, none, some, List, [], ◌∷◌, map,
  Result, ok, err, ltb, leb, ◌==◌, ◌!=◌, if◌then◌else◌, length, u8,
}
use chirpstack_network_serve.Gps
use chirpstack_network_serve.ClassB.{Encrypt}
use chirpstack_network_serve.Profile.{DeviceProfile}
use chirpstack_network_serve.SessionData.{DeviceSession}
use chirpstack_network_serve.Session.Boot.{MacVersion, lorawan_1_0, lorawan_1_1, get_mac_version}
use chirpstack_network_serve.Queue
use chirpstack_network_serve.Queue.{
  Item, Table, create_device_queue_item, get_next_device_queue_item, get_device_queue_items,
  delete_device_queue_item, flush_device_queue,
}

-- as.ReEncryptedDeviceQueueItem
pub record ReEncrypted : Type 0 where
  pub frm_payload : List ℕ
  pub f_cnt : ℕ
  pub f_port : ℕ
  pub confirmed : Bool

-- The application-server: whether its client can be had (GetRoutingProfile and Pool.Get), how
-- HandleDownlinkACK and HandleError end for a frame-counter, and ReEncryptDeviceQueueItems for the
-- first frame-counter and the queue.
pub record AppServer : Type 0 where
  pub client_ok : Bool
  pub ack_ok : ℕ → Bool
  pub error_ok : ℕ → Bool
  pub re_encrypt : ℕ → List Item → Option (List ReEncrypted)

-- What the loop reads.
pub record Reading : Type 0 where
  pub encrypt : Encrypt
  pub now : ℕ
  pub device_profile : DeviceProfile
  pub session : DeviceSession
  pub db_in_transaction : Bool
  pub max_payload_size : ℕ
  pub app : AppServer

pub data Error : Type 0 where
  app_server : Error
  queue : Queue.Error → Error
  out_of_fuel : Error

-- The notifications of the application-server.
pub data Notice : Type 0 where
  not_acknowledged : ℕ → Notice
  item_size : ℕ → Notice

-- The table, the notifications, and the item with whether there are more; `none` is an empty queue.
abbrev pub Outcome : Type 0
Outcome = Table × (List Notice × Result Error (Option (Item × Bool)))

-- The expected downlink frame-counter.
abbrev pub counter_of : MacVersion → DeviceSession → ℕ
counter_of lorawan_1_0 ds = ds.n_f_cnt_down
counter_of lorawan_1_1 ds = ds.a_f_cnt_down

unfoldable pub expected_f_cnt : DeviceSession → ℕ
expected_f_cnt ds = counter_of (get_mac_version ds) ds

abbrev pub is_before : Option ℕ → ℕ → Bool
is_before none now = false
is_before (some t) now = ltb t now

-- Not in the future.
abbrev pub is_past : Option ℕ → ℕ → Bool
is_past none gps_now = false
is_past (some t) gps_now = leb t gps_now

abbrev pub timed_out : Reading → Item → Bool
timed_out r qi = is_before qi.timeout_after r.now

abbrev pub too_large : Reading → Item → Bool
too_large r qi = ltb r.max_payload_size (length qi.frm_payload)

abbrev pub emit_past : Reading → Item → Bool
emit_past r qi = is_past qi.emit_at_time_since_gps_epoch (Gps.time_since_gps_epoch r.now)

-- The condition for taking the item.
unfoldable pub is_usable : Reading → Item → Bool
is_usable r qi =
    qi.f_cnt == expected_f_cnt r.session
    && not (timed_out r qi)
    && not (too_large r qi)
    && not (emit_past r qi)

-- The loops over CreateDeviceQueueItem: the table so far, and the error.
unfoldable pub create_all : Reading → Table → List Item → Table × Result Error (Unit {0})
create_all r table [] = (table, ok tt)
create_all r table (i ∷ is) =
    let rest : Table → Table × Result Error (Unit {0}) = λ t. create_all r t is in
    elim (create_device_queue_item r.encrypt r.now r.device_profile r.session table i) [
      | err e ↦ (table, err (queue e))
      | ok t ↦ rest t
    ]

-- The queue is flushed and filled with the items. Where that fails, a transaction of its own is
-- rolled back; within the scheduler's transaction the changes stay.
unfoldable pub requeue : Reading → Table → List Item → Table × Result Error (Unit {0})
requeue r table items =
    let filled = create_all r (flush_device_queue table r.session.dev_eui) items in
    elim filled.1 [
      | ok done ↦ filled
      | err e ↦ (if r.db_in_transaction then filled.0 else table, err e)
    ]

-- An item of the answer to ReEncryptDeviceQueueItems.
abbrev pub re_encrypted_item : DeviceSession → ReEncrypted → Item
re_encrypted_item ds x = record {
  id = 0;
  dev_addr = ds.dev_addr;
  dev_eui = ds.dev_eui;
  frm_payload = x.frm_payload;
  f_cnt = x.f_cnt;
  f_port = u8 x.f_port;
  confirmed = x.confirmed;
  is_pending = false;
  emit_at_time_since_gps_epoch = none;
  timeout_after = none;
  retry_after = none;
}

-- The item without its timing.
abbrev pub reset_item : Item → Item
reset_item qi = record qi {
  id = 0;
  is_pending = false;
  emit_at_time_since_gps_epoch = none;
  timeout_after = none;
  retry_after = none;
}

-- The head of the queue is dropped, with a notification.
unfoldable pub drop_item : Table → Item → Notice → Bool → (Table → Outcome) → Outcome
drop_item table qi notice sent rest = elim (delete_device_queue_item table qi.id) [
  | err e ↦ (table, ([], err (queue e)))
  | ok t ↦ elim sent [
    | true ↦ ((rest t).0, (notice ∷ (rest t).1.0, (rest t).1.1))
    | false ↦ (t, ([], err app_server))
  ]
]

-- The loop goes on with the new queue, if it could be made.
unfoldable pub go_on : Table × Result Error (Unit {0}) → (Table → Outcome) → Outcome
go_on (t, ok done) rest = rest t
go_on (t, err e) rest = (t, ([], err e))

-- The queue is made from the answer to ReEncryptDeviceQueueItems.
unfoldable pub re_sync : Reading → Table → Option (List ReEncrypted) → (Table → Outcome) → Outcome
re_sync r table none rest = (table, ([], err app_server))
re_sync r table (some items) rest =
    go_on (requeue r table (map (re_encrypted_item r.session) items)) rest

-- The body of the loop for an item that cannot be used.
unfoldable pub handle_unusable : Reading → Table → Item → (Table → Outcome) → Outcome
handle_unusable r table qi rest =
    if not r.app.client_ok
    then (table, ([], err app_server))
    else if timed_out r qi
    then drop_item table qi (not_acknowledged qi.f_cnt) (r.app.ack_ok qi.f_cnt) rest
    else if too_large r qi
    then drop_item table qi (item_size qi.f_cnt) (r.app.error_ok qi.f_cnt) rest
    else if qi.f_cnt != expected_f_cnt r.session
    then re_sync r table
        (r.app.re_encrypt (expected_f_cnt r.session)
          (get_device_queue_items table r.session.dev_eui))
        rest
    else if emit_past r qi
    then go_on (requeue r table (map reset_item (get_device_queue_items table r.session.dev_eui)))
        rest
    else rest table

-- getNextDeviceQueueItem, up to the item; on fuel.
unfoldable pub next_item : ℕ → Reading → Table → Outcome
next_item zero r table = (table, ([], err out_of_fuel))
next_item (suc fuel) r table =
    let rest : Table → Outcome = λ t. next_item fuel r t in
    elim (get_next_device_queue_item table r.session.dev_eui r.now) [
      | err e ↦ (table, ([], ok none))
      | ok q ↦
          if is_usable r q.0 then (table, ([], ok (some q))) else handle_unusable r table q.0 rest
    ]
