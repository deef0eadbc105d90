-- ===== src/Tests/Sample.antt =====
-- Concrete values for the examples: a band, floats that are natural numbers, a session, a profile.
use chirpstack_network_serve.Prelude.{
  ℕ, ◌+◌, ◌-◌, ◌*◌, ◌/◌, true, false, Option, none, some, [], ◌∷◌, ltb, ◌==◌, if◌then◌else◌, arith,
}
use chirpstack_network_serve.Prelude.Int.{ℤ, pos, negsuc}
use chirpstack_network_serve.Float.{FloatOps, IsOrdered}
use chirpstack_network_serve.Lorawan.{LinkAdrReq}
use chirpstack_network_serve.Lorawan.Band.{Band, DataRate, lora}
use chirpstack_network_serve.Profile.{DeviceProfile, ServiceProfile}
use chirpstack_network_serve.SessionData.{DeviceSession, UplinkHistory}
use chirpstack_network_serve.Device.{Env}
use chirpstack_network_serve.Downlink.Requests.{Config}

-- Data-rates 0 to 5: LoRa with spreading factors 12 to 7.
abbrev pub sample_data_rate : ℕ → Option DataRate
sample_data_rate n =
    if ltb n 6
    then some (record {
      modulation = lora;
      spread_factor = 12 - n;
      bandwidth = 125;
      coding_rate = "";
      bit_rate = 0;
    })
    else none

abbrev pub sample_band : Band LinkAdrReq
sample_band = record {
  get_data_rate = sample_data_rate;
  get_enabled_uplink_data_rates = 0 ∷ 1 ∷ 2 ∷ 3 ∷ 4 ∷ 5 ∷ [];
  get_standard_uplink_channel_indices = 0 ∷ 1 ∷ 2 ∷ [];
  get_uplink_channel_index = λ f d. if f == 867100000 then some 3 else none;
  get_uplink_channel = λ i. some (record { frequency = 867100000; min_dr = 0; max_dr = 5 });
  get_tx_power_offset = λ i. if ltb i 8 then some (pos 0) else none;
  get_link_adr_req_payloads = λ enabled. [];
  get_enabled_channels_for_payloads = λ enabled reqs. some (0 ∷ 1 ∷ []);
  get_custom_uplink_channel_indices = 3 ∷ [];
  implements_tx_param_setup = λ v. false;
  get_ping_slot_frequency = λ dev_addr start. some 869525000;
}

-- Floats as natural numbers with an offset of 1000.
abbrev sample_of_ℤ : ℤ → ℕ
sample_of_ℤ (pos n) = 1000 + n
sample_of_ℤ (negsuc n) = 999 - n

abbrev pub sample_float : FloatOps
sample_float = record {
  of_ℤ = sample_of_ℤ;
  of_tenths = sample_of_ℤ;
  to_ℤ = λ a. if ltb a 1000 then negsuc (999 - a) else pos (a - 1000);
  sub = λ a b. a + 1000 - b;
  mul = λ a b. 1000 + (a - 1000) * (b - 1000);
  div = λ a b. 1000 + (a - 1000) / (b - 1000);
  lt = ltb;
}

pub sample_float-IsOrdered : IsOrdered sample_float
sample_float-IsOrdered = record {
  lt_irrefl = λ a. ground arith;
  le_trans = λ a b c h k. ground arith;
  lt_asymm = λ a b h. ground arith;
}

abbrev pub uplink : ℕ → UplinkHistory
uplink f = record {
  f_cnt = f;
  max_snr = 1005;
  max_rssi = negsuc 79;
  tx_power_index = 0;
  gateway_count = 1;
}

abbrev pub sample_session : DeviceSession
sample_session = record {
  mac_version = "1.0.2";
  device_profile_id = 1;
  service_profile_id = 2;
  routing_profile_id = 3;
  dev_addr = 16909060;
  dev_eui = 42;
  join_eui = 43;
  f_nwk_s_int_key = 11;
  s_nwk_s_int_key = 11;
  nwk_s_enc_key = 11;
  app_s_key_envelope = none;
  f_cnt_up = 8;
  n_f_cnt_down = 4;
  a_f_cnt_down = 0;
  conf_f_cnt = 0;
  skip_f_cnt_validation = false;
  rx_window = 0;
  rx_delay = 1;
  rx1_dr_offset = 0;
  rx2_dr = 0;
  rx2_frequency = 869525000;
  tx_power_index = 0;
  dr = 0;
  adr = true;
  min_supported_tx_power_index = 0;
  max_supported_tx_power_index = 0;
  nb_trans = 1;
  enabled_uplink_channels = 0 ∷ 1 ∷ 2 ∷ [];
  extra_uplink_channels = [];
  channel_frequencies = [];
  uplink_history = uplink 5 ∷ uplink 7 ∷ [];
  last_dev_status_requested = 0;
  beacon_locked = false;
  ping_slot_nb = 0;
  ping_slot_dr = 0;
  ping_slot_frequency = 0;
  rejoin_request_enabled = false;
  rejoin_request_max_count_n = 0;
  rejoin_request_max_time_n = 0;
  rejoin_count0 = 0;
  reference_altitude = 0;
  uplink_dwell_time_400ms = false;
  downlink_dwell_time_400ms = false;
  uplink_max_eirp_index = 0;
  mac_command_error_count = [];
  is_disabled = false;
}

-- A device that is activated by personalisation, with one channel beside the standard ones.
abbrev pub sample_device_profile : DeviceProfile
sample_device_profile = record {
  id = 1;
  supports_class_b = false;
  class_b_timeout = 0;
  ping_slot_period = 0;
  ping_slot_dr = 0;
  ping_slot_freq = 0;
  supports_class_c = false;
  class_c_timeout = 0;
  mac_version = "1.0.2";
  reg_params_revision = "B";
  rx_delay1 = 1;
  rx_dr_offset1 = 0;
  rx_data_rate2 = 0;
  rx_freq2 = 869525000;
  factory_preset_freqs = 868100000 ∷ 868300000 ∷ 868500000 ∷ 867100000 ∷ [];
  max_eirp = 16;
  max_duty_cycle = 0;
  supports_join = false;
  rf_region = "EU868";
  supports_32bit_f_cnt = true;
  adr_algorithm_id = "default";
}

abbrev sample_service_profile : ServiceProfile
sample_service_profile = record {
  id = 2;
  dev_status_req_freq = 24;
  report_dev_status_battery = true;
  report_dev_status_margin = true;
  dr_min = 0;
  dr_max = 5;
}

abbrev pub sample_env : Env
sample_env = record {
  band = sample_band;
  float = sample_float;
  device_profile = sample_device_profile;
  service_profile = sample_service_profile;
  rx_packet = record { dr = 0; modulation = lora; spreading_factor = some 12; rx_info_set = [] };
  now = 1_000_000_000;
  get_device_ok = true;
  update_device_ok = true;
}

abbrev pub sample_config : Config
sample_config = record {
  rejoin_request_enabled = true;
  rejoin_request_max_count_n = 3;
  rejoin_request_max_time_n = 4;
  class_b_ping_slot_dr = 2;
  class_b_ping_slot_frequency = 868500000;
  rx2_frequency = 869525000;
  rx2_dr = 3;
  rx1_dr_offset = 1;
  rx1_delay = 2;
  uplink_dwell_time_400ms = false;
  downlink_dwell_time_400ms = true;
  uplink_max_eirp_index = 5;
  disable_mac_commands = false;
  max_mac_command_error_count = 3;
  disable_adr = false;
  installation_margin = 1010;
}
