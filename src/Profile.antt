-- ===== src/Profile.antt =====
-- The device-profile and service-profile of internal/storage/device_profile.go and
-- internal/storage/service_profile.go. Identifiers and times are numbers; the fields left out
-- (CreatedAt, UpdatedAt) are only stored.
use chirpstack_network_serve.Prelude.{ℕ, String, List, Bool}

-- DeviceProfile
pub record DeviceProfile : Type 0 where
  pub id : ℕ
  pub supports_class_b : Bool
  pub class_b_timeout : ℕ
  pub ping_slot_period : ℕ
  pub ping_slot_dr : ℕ
  pub ping_slot_freq : ℕ
  pub supports_class_c : Bool
  pub class_c_timeout : ℕ
  pub mac_version : String
  pub reg_params_revision : String
  pub rx_delay1 : ℕ
  pub rx_dr_offset1 : ℕ
  pub rx_data_rate2 : ℕ
  pub rx_freq2 : ℕ
  pub factory_preset_freqs : List ℕ
  pub max_eirp : ℕ
  pub max_duty_cycle : ℕ
  pub supports_join : Bool
  pub rf_region : String
  pub supports_32bit_f_cnt : Bool
  pub adr_algorithm_id : String

-- The fields of ServiceProfile that the modelled code reads.
pub record ServiceProfile : Type 0 where
  pub id : ℕ
  pub dev_status_req_freq : ℕ
  pub report_dev_status_battery : Bool
  pub report_dev_status_margin : Bool
  pub dr_min : ℕ
  pub dr_max : ℕ
