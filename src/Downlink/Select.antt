-- ===== src/Downlink/Select.antt =====
-- SelectDownlinkGateway of internal/downlink/gateway/gateway.go. The sort is the library's: here an
-- insertion sort by BySignal; the random number is a parameter.
pub mod Sorting
pub mod Chosen
use chirpstack_network_serve.Prelude.{
  ℕ, ◌%◌, Bool, true, false, not, ◌&&◌, ◌||◌, Option, none, some, List, [], ◌∷◌, Result, ok, err,
  length, get_or, ◌==◌, if◌then◌else◌,
}
use chirpstack_network_serve.Prelude.Int.{ℤ, pos, ltb_ℤ}
use chirpstack_network_serve.Float.{FloatOps}
use chirpstack_network_serve.Lorawan.Band.{DownlinkBand, DataRate, Modulation, lora, fsk, lr_fhss}
use chirpstack_network_serve.MacCommand.Inform.{required_snr}

-- DeviceGatewayRXInfo
pub record DeviceGatewayRxInfo : Type 0 where
  pub gateway_id : ℕ
  pub rssi : ℤ
  pub lora_snr : ℕ  -- float64
  pub antenna : ℕ
  pub board : ℕ
  pub context : List ℕ

-- The band, the floats with their test `==`, and rand.Intn.
pub record SelectEnv : Type 0 where
  pub band : DownlinkBand
  pub float : FloatOps
  pub equal : ℕ → ℕ → Bool
  pub random : ℕ → ℕ

pub data SelectError : Type 0 where
  no_rx_info data_rate : SelectError

-- Less: the stronger signal comes first.
unfoldable pub less : SelectEnv → DeviceGatewayRxInfo → DeviceGatewayRxInfo → Bool
less env a b =
    if env.equal a.lora_snr b.lora_snr
    then ltb_ℤ b.rssi a.rssi
    else env.float.lt b.lora_snr a.lora_snr

-- sort.Sort(BySignal(rxInfo))
unfoldable pub insert_by_signal :
    SelectEnv → DeviceGatewayRxInfo → List DeviceGatewayRxInfo → List DeviceGatewayRxInfo
insert_by_signal env a [] = a ∷ []
insert_by_signal env a (x ∷ xs) =
    let rest = insert_by_signal env a xs in if less env a x then a ∷ x ∷ xs else x ∷ rest

unfoldable pub by_signal : SelectEnv → List DeviceGatewayRxInfo → List DeviceGatewayRxInfo
unfolding insert_by_signal
by_signal env [] = []
by_signal env (x ∷ xs) = insert_by_signal env x (by_signal env xs)

abbrev is_lora : Modulation → Bool
is_lora lora = true
is_lora _ = false

-- The required SNR, or the zero value of a missing key.
abbrev required : SelectEnv → ℕ → ℕ
required env sf = elim (required_snr env.float sf) [ none ↦ env.float.of_ℤ (pos 0) | some r ↦ r ]

-- The signal is above the required SNR by the margin (`>=`, on numbers).
unfoldable pub has_margin : SelectEnv → ℕ → DataRate → DeviceGatewayRxInfo → Bool
has_margin env min_snr_margin dr i =
    is_lora dr.modulation
    && (env.float.lt min_snr_margin (env.float.sub i.lora_snr (required env dr.spread_factor))
        || env.equal min_snr_margin (env.float.sub i.lora_snr (required env dr.spread_factor)))

-- The loop that appends to newRxInfo.
unfoldable pub with_margin :
    SelectEnv → ℕ → DataRate → List DeviceGatewayRxInfo → List DeviceGatewayRxInfo
unfolding has_margin
with_margin env min_snr_margin dr [] = []
with_margin env min_snr_margin dr (i ∷ is) =
    let rest = with_margin env min_snr_margin dr is in
    if has_margin env min_snr_margin dr i then i ∷ rest else rest

-- SelectDownlinkGateway
unfoldable pub select_downlink_gateway :
    SelectEnv → ℕ → ℕ → List DeviceGatewayRxInfo → Result SelectError DeviceGatewayRxInfo
select_downlink_gateway env min_snr_margin rx_dr [] = err no_rx_info
select_downlink_gateway env min_snr_margin rx_dr (i ∷ is) = elim (env.band.get_data_rate rx_dr) [
  | none ↦ err data_rate
  | some dr ↦
      let sorted = by_signal env (i ∷ is) in
      elim (with_margin env min_snr_margin dr sorted) [
        | [] ↦ ok (get_or sorted 0 i)
        | x ∷ xs ↦ ok (get_or (x ∷ xs) (env.random (length (x ∷ xs))) x)
      ]
]
