-- ===== src/ClassB.antt =====
-- internal/helpers/classb/classb.go: beacons and ping-slots of Class-B devices. Durations are
-- nanoseconds since the GPS epoch. AES is a parameter: the first two bytes of the block encrypted
-- under the zero key, for the beacon time and the DevAddr.
pub mod Slots
pub mod Next
use chirpstack_network_serve.Prelude.{
  ℕ, zero, suc, ◌+◌, ◌-◌, ◌*◌, ◌/◌, ◌%◌, ◌≡◌, Bool, Option, none, some, Result, ok, err, ◌>>=◌, ltb,
  ◌==◌, if◌then◌else◌, u32,
}
use chirpstack_network_serve.Gps
use chirpstack_network_serve.Gps.{second}

abbrev pub beacon_period : ℕ
beacon_period = 128 * second

abbrev pub beacon_reserved : ℕ
beacon_reserved = 2_120_000_000

abbrev pub beacon_guard : ℕ
beacon_guard = 3 * second

abbrev pub beacon_window : ℕ
beacon_window = 122_880_000_000

abbrev pub ping_period_base : ℕ
ping_period_base = 4096

abbrev pub slot_len : ℕ
slot_len = 30_000_000

pub data Error : Type 0 where
  zero_ping_nb : Error
  not_a_beacon : Error
  -- the division by zero that a ping number above 4096 leads to
  panic : Error
  out_of_fuel : Error

-- rand[0] and rand[1] for beaconTime and devAddr
abbrev pub Encrypt : Type 0
Encrypt = ℕ → ℕ → ℕ × ℕ

-- GetBeaconStartForTime
unfoldable pub get_beacon_start_for_time : ℕ → ℕ
get_beacon_start_for_time ts =
    Gps.time_since_gps_epoch ts - Gps.time_since_gps_epoch ts % beacon_period

-- GetPingOffset
unfoldable pub get_ping_offset : Encrypt → ℕ → ℕ → ℕ → Result Error ℕ
get_ping_offset encrypt beacon dev_addr ping_nb =
    let rand = encrypt (u32 (beacon / second)) dev_addr in
    let ping_period = ping_period_base / ping_nb in
    if ping_nb == 0
    then err zero_ping_nb
    else if beacon % beacon_period == 0
    then (if ping_period == 0 then err panic else ok ((rand.0 + rand.1 * 256) % ping_period))
    else err not_a_beacon

-- The time of the n-th ping-slot of a beacon.
abbrev pub slot_time : ℕ → ℕ → ℕ → ℕ → ℕ
slot_time beacon_start ping_offset ping_period n =
    beacon_start + beacon_reserved + (ping_offset + n * ping_period) * slot_len

-- The inner loop, from the n-th slot on and with k slots left: the first one after `after`.
unfoldable pub find_slot : ℕ → (ℕ → ℕ) → ℕ → ℕ → Option ℕ
find_slot after slot zero n = none
find_slot after slot (suc k) n =
    let rest = find_slot after slot k (n + 1) in if ltb after (slot n) then some (slot n) else rest

-- The outer loop over the beacons.
unfoldable pub next_from : Encrypt → ℕ → ℕ → ℕ → ℕ → ℕ → Result Error ℕ
next_from encrypt after dev_addr ping_nb zero beacon_start = err out_of_fuel
next_from encrypt after dev_addr ping_nb (suc fuel) beacon_start =
    let later = next_from encrypt after dev_addr ping_nb fuel (beacon_start + beacon_period) in
    do
      offset ← get_ping_offset encrypt beacon_start dev_addr ping_nb
      elim (find_slot after (slot_time beacon_start offset (ping_period_base / ping_nb)) ping_nb
          0) [ some t ↦ ok t | none ↦ later ]

-- GetNextPingSlotAfter; two rounds of the outer loop are enough.
unfoldable pub get_next_ping_slot_after : Encrypt → ℕ → ℕ → ℕ → Result Error ℕ
unfolding next_from
get_next_ping_slot_after encrypt after dev_addr ping_nb =
    if ping_nb == 0
    then err zero_ping_nb
    else next_from encrypt after dev_addr ping_nb 2 (after - after % beacon_period)
