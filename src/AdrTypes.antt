-- ===== src/AdrTypes.antt =====
-- HandleRequest, HandleResponse and UplinkMetaData of adr/structs.go. The fields that no algorithm
-- reads (Region, DevEUI, MACVersion, RegParamsRevision) are left out.
use chirpstack_network_serve.Prelude.{ℕ, List, Bool}
use chirpstack_network_serve.Prelude.Int.{ℤ}

-- UplinkMetaData
pub record UplinkMetaData : Type 0 where
  pub f_cnt : ℕ
  pub max_snr : ℕ  -- float32
  pub max_rssi : ℤ
  pub tx_power_index : ℕ
  pub gateway_count : ℕ

-- HandleRequest
pub record HandleRequest : Type 0 where
  pub adr : Bool
  pub dr : ℕ
  pub tx_power_index : ℕ
  pub nb_trans : ℕ
  pub max_tx_power_index : ℕ
  pub required_snr_for_dr : ℕ  -- float32
  pub installation_margin : ℕ  -- float32
  pub min_dr : ℕ
  pub max_dr : ℕ
  pub uplink_history : List UplinkMetaData

-- HandleResponse
pub record HandleResponse : Type 0 where
  pub dr : ℕ
  pub tx_power_index : ℕ
  pub nb_trans : ℕ
