-- ===== src/ClassB/Slots.antt =====
-- GetPingOffset of internal/helpers/classb/classb.go: where the ping-slots of a beacon lie.
use chirpstack_network_serve.Prelude.{ℕ, suc, ◌+◌, ◌*◌, ◌/◌, ◌≤◌, ◌<◌, ◌≡◌, ok, arith}
use chirpstack_network_serve.ClassB.{
  Encrypt, beacon_period, beacon_reserved, beacon_guard, ping_period_base, slot_len, slot_time,
  get_ping_offset,
}

period_bounds : (nb : ℕ) → 0 < nb → nb * (ping_period_base / nb) ≤ ping_period_base
period_bounds nb h = grind arith

slots_fit :
    (offset period nb n : ℕ)
    → offset < period
    → n < nb
    → nb * period ≤ ping_period_base
    → offset + n * period + 1 ≤ ping_period_base
slots_fit offset period nb n h k l =
    let m : suc n * period ≤ nb * period = grind arith in omega (arith, m, l)

pub get_ping_offset_lem :
    (encrypt : Encrypt) (beacon dev_addr ping_nb offset : ℕ)
    → get_ping_offset encrypt beacon dev_addr ping_nb ≡ ok offset
    → (0 < ping_nb) × (offset < ping_period_base / ping_nb)
unfolding get_ping_offset
get_ping_offset_lem encrypt beacon dev_addr ping_nb offset h = (ground arith, ground arith)

-- Each ping-slot of a beacon begins behind the reserved time of the beacon, and has ended when the
-- guard time before the next beacon begins.
pub slot_time_bounds :
    (encrypt : Encrypt) (beacon dev_addr ping_nb offset n : ℕ)
    → get_ping_offset encrypt beacon dev_addr ping_nb ≡ ok offset
    → n < ping_nb
    → let t = slot_time beacon offset (ping_period_base / ping_nb) n in
      (beacon + beacon_reserved ≤ t) × (t + slot_len + beacon_guard ≤ beacon + beacon_period)
slot_time_bounds encrypt beacon dev_addr ping_nb offset n h k =
    let (pos, lt) = get_ping_offset_lem encrypt beacon dev_addr ping_nb offset h in
    let fit =
      slots_fit offset (ping_period_base / ping_nb) ping_nb n lt k (period_bounds ping_nb pos) in
    (omega arith, omega (arith, fit))
