-- ===== src/Lorawan/Band.antt =====
-- The region's band, of the library lorawan/band: `band.Band()` of internal/band returns one that
-- was configured at the start. It is a parameter of all that uses it; an error is `none`.
use chirpstack_network_serve.Prelude.{ℕ, String, List, Bool, Option}
use chirpstack_network_serve.Prelude.Int.{ℤ}

pub data Modulation : Type 0 where
  lora fsk lr_fhss : Modulation

pub record DataRate : Type 0 where
  pub modulation : Modulation
  pub spread_factor : ℕ
  pub bandwidth : ℕ
  pub coding_rate : String
  pub bit_rate : ℕ

pub record Channel : Type 0 where
  pub frequency : ℕ
  pub min_dr : ℕ
  pub max_dr : ℕ

-- `R` is the type of LinkADRReq payloads, which the module above declares.
pub record Band (R : Type 0) : Type 0 where
  pub get_data_rate : ℕ → Option DataRate
  pub get_enabled_uplink_data_rates : List ℕ
  pub get_standard_uplink_channel_indices : List ℕ
  pub get_uplink_channel_index : ℕ → Bool → Option ℕ
  pub get_uplink_channel : ℕ → Option Channel
  pub get_tx_power_offset : ℕ → Option ℤ
  pub get_link_adr_req_payloads : List ℕ → List R
  pub get_enabled_channels_for_payloads : List ℕ → List R → Option (List ℕ)
  pub get_custom_uplink_channel_indices : List ℕ
  pub implements_tx_param_setup : String → Bool
  pub get_ping_slot_frequency : ℕ → ℕ → Option ℕ

-- The functions of the band that a downlink needs, with the receive delays of GetDefaults in
-- nanoseconds; GetMaxPayloadSizeForDataRateIndex has the MAC version and the revision, and gives N.
pub record DownlinkBand : Type 0 where
  pub get_data_rate : ℕ → Option DataRate
  pub get_rx1_data_rate_index : ℕ → ℕ → Option ℕ
  pub get_rx1_frequency_for_uplink_frequency : ℕ → Option ℕ
  pub get_downlink_tx_power : ℕ → ℤ
  pub receive_delay1 : ℕ
  pub receive_delay2 : ℕ
  pub get_max_payload_size : String → String → ℕ → Option ℕ
