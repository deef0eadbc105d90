-- ===== src/Adr/Default.antt =====
-- DefaultHandler of internal/adr/default.go. An error of the band is `none`.
pub mod Steps
pub mod Bounds
use chirpstack_network_serve.Prelude.{
  ℕ, zero, suc, ◌+◌, ◌-◌, ◌^◌, ◌≡◌, Bool, true, false, not, ◌&&◌, Option, none, some, List, [], ◌∷◌,
  ltb, ◌==◌, ◌!=◌, if◌then◌else◌, length, get_or, u32,
}
use chirpstack_network_serve.Prelude.Int.{ℤ, pos, negsuc, ltb_ℤ}
use chirpstack_network_serve.Float.{FloatOps}
use chirpstack_network_serve.Lorawan.{LinkAdrReq}
use chirpstack_network_serve.Lorawan.Band.{Band, Modulation, DataRate, lora}
use chirpstack_network_serve.AdrTypes.{UplinkMetaData, HandleRequest, HandleResponse}

abbrev is_lora : Modulation → Bool
is_lora lora = true
is_lora _ = false

-- A LoRa (125kHz) data-rate.
abbrev pub is_lora_125 : DataRate → Bool
is_lora_125 d = is_lora d.modulation && d.bandwidth == 125

-- The loop over the enabled data-rates: the last LoRa (125kHz) one.
unfoldable pub max_lora_dr : Band LinkAdrReq → ℕ → List ℕ → Option ℕ
max_lora_dr band found [] = some found
max_lora_dr band found (i ∷ is) = elim (band.get_data_rate i) [
  | none ↦ none
  | some d ↦ max_lora_dr band (if is_lora_125 d then i else found) is
]

-- getMaxSNR
unfoldable pub get_max_snr : FloatOps → ℕ → List UplinkMetaData → ℕ
get_max_snr f snr [] = snr
get_max_snr f snr (m ∷ ms) = get_max_snr f (if f.lt snr m.max_snr then m.max_snr else snr) ms

-- getHistoryCount
unfoldable pub get_history_count : ℕ → List UplinkMetaData → ℕ
get_history_count tx_power_index [] = 0
get_history_count tx_power_index (m ∷ ms) =
    let rest = get_history_count tx_power_index ms in
    if tx_power_index == m.tx_power_index then suc rest else rest

-- requiredHistoryCount
abbrev pub required_history_count : ℕ
required_history_count = 20

-- getIdealTxPowerIndexAndDR: the recursion for a positive nStep, and for a negative one.
unfoldable pub steps_up : ℕ → ℕ → ℕ → ℕ → ℕ → ℕ × ℕ
steps_up zero tx_power_index dr max_tx_power_index max_dr = (tx_power_index, dr)
steps_up (suc n) tx_power_index dr max_tx_power_index max_dr =
    steps_up n
      (if ltb dr max_dr
        then tx_power_index
        else if ltb tx_power_index max_tx_power_index
        then tx_power_index + 1
        else tx_power_index)
      (if ltb dr max_dr then dr + 1 else dr) max_tx_power_index max_dr

unfoldable pub steps_down : ℕ → ℕ → ℕ → ℕ × ℕ
steps_down zero tx_power_index dr = (tx_power_index, dr)
steps_down (suc n) tx_power_index dr =
    steps_down n (if ltb 0 tx_power_index then tx_power_index - 1 else tx_power_index) dr

-- getIdealTxPowerIndexAndDR
unfoldable pub get_ideal_tx_power_index_and_dr : ℤ → ℕ → ℕ → ℕ → ℕ → ℕ × ℕ
unfolding steps_up steps_down
get_ideal_tx_power_index_and_dr (pos n) tx_power_index dr max_tx_power_index max_dr =
    steps_up n tx_power_index dr max_tx_power_index max_dr
get_ideal_tx_power_index_and_dr (negsuc n) tx_power_index dr max_tx_power_index max_dr =
    steps_down (suc n) tx_power_index dr

-- pktLossRateTable
abbrev pub pkt_loss_rate_table : List (List ℕ)
pkt_loss_rate_table = (1 ∷ 1 ∷ 2 ∷ []) ∷ (1 ∷ 2 ∷ 3 ∷ []) ∷ (2 ∷ 3 ∷ 3 ∷ []) ∷ (3 ∷ 3 ∷ 3 ∷ []) ∷ []

-- getNbTrans
unfoldable pub get_nb_trans : FloatOps → ℕ → ℕ → ℕ
get_nb_trans f current rate =
    let n = if ltb current 1 then 1 else if ltb 3 current then 3 else current in
    let row =
      if f.lt rate (f.of_ℤ (pos 5))
      then 0
      else if f.lt rate (f.of_ℤ (pos 10))
      then 1
      else if f.lt rate (f.of_ℤ (pos 30))
      then 2
      else 3 in
    get_or (get_or pkt_loss_rate_table row []) (n - 1) 0

-- The rounds of the loop of getPacketLossPercentage after the first; 32-bit arithmetic wraps.
lost_from : ℕ → ℕ → List UplinkMetaData → ℕ
lost_from previous lost [] = lost
lost_from previous lost (m ∷ ms) =
    lost_from m.f_cnt (u32 (lost + u32 (m.f_cnt + 2 ^ 32 - previous + 2 ^ 32 - 1))) ms

unfoldable pub lost_packets : List UplinkMetaData → ℕ
unfolding lost_from
lost_packets [] = 0
lost_packets (m ∷ ms) = lost_from m.f_cnt 0 ms

-- getPacketLossPercentage
unfoldable pub get_packet_loss_percentage : FloatOps → List UplinkMetaData → ℕ
get_packet_loss_percentage f history =
    if ltb (length history) required_history_count
    then f.of_ℤ (pos 0)
    else f.mul (f.div (f.of_ℤ (pos (lost_packets history))) (f.of_ℤ (pos (length history))))
        (f.of_ℤ (pos 100))

-- int(snrMargin / 3)
unfoldable pub n_step : FloatOps → HandleRequest → ℤ
n_step f req =
    let snr = get_max_snr f (f.of_ℤ (negsuc 998)) req.uplink_history in
    f.to_ℤ
      (f.div (f.sub (f.sub snr req.required_snr_for_dr) req.installation_margin) (f.of_ℤ (pos 3)))

-- What Handle does once the largest LoRa data-rate is known.
unfoldable pub adapt : FloatOps → HandleRequest → ℕ → HandleResponse
adapt f req max_lora =
    let max_dr = if ltb max_lora req.max_dr then max_lora else req.max_dr in
    let dr = if ltb max_dr req.dr then max_dr else req.dr in
    let nb_trans = get_nb_trans f req.nb_trans (get_packet_loss_percentage f req.uplink_history) in
    let ideal =
      get_ideal_tx_power_index_and_dr (n_step f req) req.tx_power_index dr req.max_tx_power_index
        max_dr in
    if ltb_ℤ (n_step f req) (pos 0)
      && get_history_count req.tx_power_index req.uplink_history != required_history_count
    then record { dr = dr; tx_power_index = req.tx_power_index; nb_trans = nb_trans }
    else record { dr = ideal.1; tx_power_index = ideal.0; nb_trans = nb_trans }

abbrev pub unchanged : HandleRequest → HandleResponse
unchanged req = record { dr = req.dr; tx_power_index = req.tx_power_index; nb_trans = req.nb_trans }

-- Handle; `none` is the error of GetDataRate.
unfoldable pub handle : Band LinkAdrReq → FloatOps → HandleRequest → Option HandleResponse
unfolding adapt max_lora_dr
handle band f req =
    if not req.adr
    then some (unchanged req)
    else elim (max_lora_dr band 0 band.get_enabled_uplink_data_rates) [
      | none ↦ none
      | some max_lora ↦ some (adapt f req max_lora)
    ]
