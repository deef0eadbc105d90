-- ===== src/SessionData.antt =====
-- The device-session of internal/storage/device_session.go: what the network server keeps of an
-- activated device; the modules below Session model its operations. `int` fields that hold
-- indices, data-rates and counts are natural numbers, byte arrays are the numbers they spell, and
-- floats are their bit patterns, which the session only stores. The deprecated EnabledChannels is
-- left out, and a pending rejoin session stands beside its session in Session/Lookup.
use chirpstack_network_serve.Prelude.{ℕ, String, List, Bool, Option}
use chirpstack_network_serve.Prelude.Int.{ℤ}
use chirpstack_network_serve.Prelude.Assoc.{Assoc}
use chirpstack_network_serve.Lorawan.Band.{Channel}

-- UplinkHistory
pub record UplinkHistory : Type 0 where
  pub f_cnt : ℕ
  pub max_snr : ℕ  -- float64
  pub max_rssi : ℤ
  pub tx_power_index : ℕ
  pub gateway_count : ℕ

-- KeyEnvelope
pub record KeyEnvelope : Type 0 where
  pub kek_label : String
  pub aes_key : ℕ

-- DeviceSession
pub record DeviceSession : Type 0 where
  pub mac_version : String
  pub device_profile_id : ℕ
  pub service_profile_id : ℕ
  pub routing_profile_id : ℕ
  pub dev_addr : ℕ
  pub dev_eui : ℕ
  pub join_eui : ℕ
  pub f_nwk_s_int_key : ℕ
  pub s_nwk_s_int_key : ℕ
  pub nwk_s_enc_key : ℕ
  pub app_s_key_envelope : Option KeyEnvelope
  pub f_cnt_up : ℕ
  pub n_f_cnt_down : ℕ
  pub a_f_cnt_down : ℕ
  pub conf_f_cnt : ℕ
  pub skip_f_cnt_validation : Bool
  pub rx_window : ℕ
  pub rx_delay : ℕ
  pub rx1_dr_offset : ℕ
  pub rx2_dr : ℕ
  pub rx2_frequency : ℕ
  pub tx_power_index : ℕ
  pub dr : ℕ
  pub adr : Bool
  pub min_supported_tx_power_index : ℕ
  pub max_supported_tx_power_index : ℕ
  pub nb_trans : ℕ
  pub enabled_uplink_channels : List ℕ
  pub extra_uplink_channels : Assoc Channel
  pub channel_frequencies : List ℕ
  pub uplink_history : List UplinkHistory
  pub last_dev_status_requested : ℕ
  pub beacon_locked : Bool
  pub ping_slot_nb : ℕ
  pub ping_slot_dr : ℕ
  pub ping_slot_frequency : ℕ
  pub rejoin_request_enabled : Bool
  pub rejoin_request_max_count_n : ℕ
  pub rejoin_request_max_time_n : ℕ
  pub rejoin_count0 : ℕ
  pub reference_altitude : ℕ  -- float64
  pub uplink_dwell_time_400ms : Bool
  pub downlink_dwell_time_400ms : Bool
  pub uplink_max_eirp_index : ℕ
  pub mac_command_error_count : Assoc ℕ
  pub is_disabled : Bool
