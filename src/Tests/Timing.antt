-- ===== src/Tests/Timing.antt =====
-- Examples for Gps and ClassB.
use chirpstack_network_serve.Prelude.{ℕ, ◌≡◌, ok, arith}
use chirpstack_network_serve.Gps.{new_from_time_since_gps_epoch, time_since_gps_epoch}
use chirpstack_network_serve.Gps.RoundTrip.{new_from_time_since_gps_epoch-time_since_gps_epoch}
use chirpstack_network_serve.ClassB.{Encrypt, get_next_ping_slot_after}
use chirpstack_network_serve.ClassB.Next.{IsNext, get_next_ping_slot_after-IsNext}

new_from_time_since_gps_epoch-time_since_gps_epoch_example :
    new_from_time_since_gps_epoch (time_since_gps_epoch 1_000_000_000_000_000_000)
    ≡ 1_000_000_000_000_000_000
new_from_time_since_gps_epoch-time_since_gps_epoch_example =
    new_from_time_since_gps_epoch-time_since_gps_epoch 1_000_000_000_000_000_000

-- The first two bytes of the block are 5 and 1.
abbrev sample_encrypt : Encrypt
sample_encrypt time dev_addr = (5, 1)

get_next_ping_slot_after-IsNext_example :
    (t : ℕ) × (get_next_ping_slot_after sample_encrypt 300_000_000_000 7 8 ≡ ok t)
    × IsNext sample_encrypt 300_000_000_000 7 8 t
get_next_ping_slot_after-IsNext_example =
    get_next_ping_slot_after-IsNext sample_encrypt 300_000_000_000 7 8 (omega arith) (omega arith)
