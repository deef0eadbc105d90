-- ===== src/Queue/Schedulable.antt =====
-- GetDevicesWithClassBOrClassCDeviceQueueItems of internal/storage/device_queue.go: which devices the
-- scheduler may take.
use chirpstack_network_serve.Prelude.{
  ℕ, ◌+◌, ◌*◌, Bool, true, false, not, ◌&&◌, ◌||◌, Option, none, some, List, [], ◌∷◌, leb, ◌==◌,
}
use chirpstack_network_serve.Gps
use chirpstack_network_serve.Device.{DeviceMode, mode_b, mode_c}
use chirpstack_network_serve.Queue.{Item, Table, is_after}

-- The columns of the device table that the scheduler's statement reads.
pub record Device : Type 0 where
  pub dev_eui : ℕ
  pub mode : DeviceMode

abbrev is_mode_b : DeviceMode → Bool
is_mode_b mode_b = true
is_mode_b _ = false

abbrev is_mode_c : DeviceMode → Bool
is_mode_c mode_c = true
is_mode_c _ = false

abbrev is_due : Option ℕ → ℕ → Bool
is_due none time = false
is_due (some t) time = leb t time

-- `exists`: the device has an item, which is due by `time` if the device is in mode B.
has_due : Device → ℕ → List Item → Bool
has_due d time [] = false
has_due d time (i ∷ is) =
    (i.dev_eui == d.dev_eui
      && (is_mode_c d.mode || (is_mode_b d.mode && is_due i.emit_at_time_since_gps_epoch time)))
    || has_due d time is

-- `not exists`: a pending item that has not timed out, or one to retry later.
has_blocking : Device → ℕ → List Item → Bool
has_blocking d now [] = false
has_blocking d now (i ∷ is) =
    (i.dev_eui == d.dev_eui
      && ((i.is_pending && is_after i.timeout_after now) || is_after i.retry_after now))
    || has_blocking d now is

-- The devices that satisfy the conditions of GetDevicesWithClassBOrClassCDeviceQueueItems; its
-- order and limit are left to the caller.
unfoldable pub is_schedulable : Table → ℕ → ℕ → Device → Bool
unfolding has_due has_blocking
is_schedulable table interval now d =
    (is_mode_b d.mode || is_mode_c d.mode)
    && has_due d (Gps.time_since_gps_epoch (now + interval * 2)) table.rows
    && not (has_blocking d now table.rows)
