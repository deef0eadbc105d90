-- ===== src/Session/Loss.antt =====
-- GetPacketLossPercentage of internal/storage/device_session.go.
use chirpstack_network_serve.Prelude.{
  ℕ, ◌+◌, ◌-◌, ◌^◌, ◌≤◌, ◌<◌, ◌≡◌, List, [], ◌∷◌, arith, ltb, if◌then◌else◌, length, u32,
}
use chirpstack_network_serve.Prelude.Int.{pos}
use chirpstack_network_serve.Float.{FloatOps}
use chirpstack_network_serve.SessionData.{UplinkHistory, DeviceSession}
use chirpstack_network_serve.Session.History.{uplink_history_size}

-- The rounds of the loop after the first one: `previousFCnt`, `lostPackets` and the records left.
-- The sum and the differences wrap at 32 bits.
lost_from : ℕ → ℕ → List UplinkHistory → ℕ
lost_from previous lost [] = lost
lost_from previous lost (uh ∷ rest) =
    lost_from uh.f_cnt (u32 (lost + u32 (uh.f_cnt + 2 ^ 32 - previous + 2 ^ 32 - 1))) rest

-- The number of lost packets; the first record only sets `previousFCnt`.
unfoldable pub lost_packets : List UplinkHistory → ℕ
unfolding lost_from
lost_packets [] = 0
lost_packets (uh ∷ rest) = lost_from uh.f_cnt 0 rest

-- GetPacketLossPercentage
unfoldable pub get_packet_loss_percentage : FloatOps → DeviceSession → ℕ
get_packet_loss_percentage f s =
    if ltb (length s.uplink_history) uplink_history_size
    then f.of_ℤ (pos 0)
    else f.mul
        (f.div (f.of_ℤ (pos (lost_packets s.uplink_history)))
          (f.of_ℤ (pos (length s.uplink_history))))
        (f.of_ℤ (pos 100))

-- The frame-counters of the records grow and fit in 32 bits.
abbrev pub Increasing : ℕ → List UplinkHistory → Type 0
Increasing previous [] = previous < 2 ^ 32
Increasing previous (uh ∷ rest) = (previous < uh.f_cnt) × Increasing uh.f_cnt rest

abbrev pub last_f_cnt : ℕ → List UplinkHistory → ℕ
last_f_cnt previous [] = previous
last_f_cnt previous (uh ∷ rest) = last_f_cnt uh.f_cnt rest

last_f_cnt-bounds :
    (p : ℕ) (us : List UplinkHistory)
    → Increasing p us
    → (p ≤ last_f_cnt p us) × (last_f_cnt p us < 2 ^ 32)
last_f_cnt-bounds p [] h = omega arith
last_f_cnt-bounds p (u ∷ us) h = omega (arith, last_f_cnt-bounds u.f_cnt us h.1)

lost_from-exact :
    (p n : ℕ) (us : List UplinkHistory)
    → Increasing p us
    → n ≤ p
    → lost_from p n us + p + length us ≡ n + last_f_cnt p us
unfolding lost_from
lost_from-exact p n [] h k = omega arith
lost_from-exact p n (u ∷ us) h k =
    let b = last_f_cnt-bounds u.f_cnt us h.1 in
    let m = u32 (n + u32 (u.f_cnt + 2 ^ 32 - p + 2 ^ 32 - 1)) in
    let e : m ≡ n + (u.f_cnt - p - 1) = omega arith in
    let ih = lost_from-exact u.f_cnt m us h.1 (omega arith) in omega arith

-- For records whose frame-counters grow, the lost packets and the records make up all frame-counters
-- from the first record to the last: each frame in between was received or is counted as lost.
pub lost_packets-exact :
    (u : UplinkHistory) (us : List UplinkHistory)
    → Increasing u.f_cnt us
    → lost_packets (u ∷ us) + length (u ∷ us) + u.f_cnt ≡ last_f_cnt u.f_cnt us + 1
unfolding lost_packets
lost_packets-exact u us h = omega (arith, lost_from-exact u.f_cnt 0 us h (omega arith))
