-- ===== src/Ack/Zero.antt =====
-- Go's zero values, which the context of internal/downlink/ack/ack.go starts from. A frame that is not
-- found is nil there; no task reads it.
use chirpstack_network_serve.Prelude.{false, none, []}
use chirpstack_network_serve.Prelude.Int.{pos}
use chirpstack_network_serve.Gateway.{FrameItem, no_modulation}
use chirpstack_network_serve.Profile.{DeviceProfile}
use chirpstack_network_serve.SessionData.{DeviceSession}
use chirpstack_network_serve.Queue.{Item}
use chirpstack_network_serve.Ack.{DownlinkFrame}

abbrev pub zero_session : DeviceSession
zero_session = record {
  mac_version = "";
  device_profile_id = 0;
  service_profile_id = 0;
  routing_profile_id = 0;
  dev_addr = 0;
  dev_eui = 0;
  join_eui = 0;
  f_nwk_s_int_key = 0;
  s_nwk_s_int_key = 0;
  nwk_s_enc_key = 0;
  app_s_key_envelope = none;
  f_cnt_up = 0;
  n_f_cnt_down = 0;
  a_f_cnt_down = 0;
  conf_f_cnt = 0;
  skip_f_cnt_validation = false;
  rx_window = 0;
  rx_delay = 0;
  rx1_dr_offset = 0;
  rx2_dr = 0;
  rx2_frequency = 0;
  tx_power_index = 0;
  dr = 0;
  adr = false;
  min_supported_tx_power_index = 0;
  max_supported_tx_power_index = 0;
  nb_trans = 0;
  enabled_uplink_channels = [];
  extra_uplink_channels = [];
  channel_frequencies = [];
  uplink_history = [];
  last_dev_status_requested = 0;
  beacon_locked = false;
  ping_slot_nb = 0;
  ping_slot_dr = 0;
  ping_slot_frequency = 0;
  rejoin_request_enabled = false;
  rejoin_request_max_count_n = 0;
  rejoin_request_max_time_n = 0;
  rejoin_count0 = 0;
  reference_altitude = 0;
  uplink_dwell_time_400ms = false;
  downlink_dwell_time_400ms = false;
  uplink_max_eirp_index = 0;
  mac_command_error_count = [];
  is_disabled = false;
}

abbrev pub zero_profile : DeviceProfile
zero_profile = record {
  id = 0;
  supports_class_b = false;
  class_b_timeout = 0;
  ping_slot_period = 0;
  ping_slot_dr = 0;
  ping_slot_freq = 0;
  supports_class_c = false;
  class_c_timeout = 0;
  mac_version = "";
  reg_params_revision = "";
  rx_delay1 = 0;
  rx_dr_offset1 = 0;
  rx_data_rate2 = 0;
  rx_freq2 = 0;
  factory_preset_freqs = [];
  max_eirp = 0;
  max_duty_cycle = 0;
  supports_join = false;
  rf_region = "";
  supports_32bit_f_cnt = false;
  adr_algorithm_id = "";
}

abbrev pub zero_item : Item
zero_item = record {
  id = 0;
  dev_addr = 0;
  dev_eui = 0;
  frm_payload = [];
  f_cnt = 0;
  f_port = 0;
  confirmed = false;
  is_pending = false;
  emit_at_time_since_gps_epoch = none;
  timeout_after = none;
  retry_after = none;
}

abbrev pub zero_frame_item : FrameItem
zero_frame_item = record {
  phy_payload = [];
  tx_info = record {
    board = 0;
    antenna = 0;
    context = [];
    frequency = 0;
    power = pos 0;
    modulation_info = no_modulation;
    timing = none;
  };
}

abbrev pub zero_frame : DownlinkFrame
zero_frame = record {
  token = 0;
  dev_eui = none;
  device_queue_item_id = 0;
  multicast_group_id = none;
  multicast_queue_item_id = 0;
  downlink_frame = record { gateway_id = 0; token = 0; downlink_id = []; items = [] };
  routing_profile_id = 0;
  encrypted_f_opts = false;
  nwk_s_enc_key = 0;
}
