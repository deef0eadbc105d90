-- ===== src/Lorawan.antt =====
-- The types of the lorawan library that the network server's code reads and writes: identifiers,
-- frame types and the payloads of MAC commands, with the fields the code uses. Byte arrays (keys,
-- EUIs, DevAddrs) are the numbers they spell. A request and its answer share their identifier.
pub mod Band
pub mod Cid
use chirpstack_network_serve.Prelude.{ℕ, List, Bool}
use chirpstack_network_serve.Prelude.Int.{ℤ}

-- LinkADRReqPayload, with `Redundancy` flattened into its two fields.
pub record LinkAdrReq : Type 0 where
  pub data_rate : ℕ
  pub tx_power : ℕ
  pub ch_mask : List Bool
  pub ch_mask_cntl : ℕ
  pub nb_rep : ℕ

pub record NewChannelReq : Type 0 where
  pub ch_index : ℕ
  pub freq : ℕ
  pub min_dr : ℕ
  pub max_dr : ℕ

-- RXParamSetupReqPayload, with `DLSettings` flattened.
pub record RxParamSetupReq : Type 0 where
  pub frequency : ℕ
  pub rx2_data_rate : ℕ
  pub rx1_dr_offset : ℕ

pub data DwellTime : Type 0 where
  no_limit limit_400ms : DwellTime

pub record TxParamSetupReq : Type 0 where
  pub downlink_dwell_time : DwellTime
  pub uplink_dwell_time : DwellTime
  pub max_eirp : ℕ

-- The class byte of DeviceModeInd; `reserved` is any other value.
pub data DeviceModeClass : Type 0 where
  class_a class_c : DeviceModeClass
  reserved : ℕ → DeviceModeClass

-- `MACCommand.Payload`: an interface value, whose dynamic type the handlers assert.
pub data Payload : Type 0 where
  no_payload : Payload
  link_check_ans : ℕ → ℕ → Payload
  link_adr_req : LinkAdrReq → Payload
  link_adr_ans : Bool → Bool → Bool → Payload
  rx_param_setup_req : RxParamSetupReq → Payload
  rx_param_setup_ans : Bool → Bool → Bool → Payload
  dev_status_ans : ℕ → ℤ → Payload
  new_channel_req : NewChannelReq → Payload
  new_channel_ans : Bool → Bool → Payload
  rx_timing_setup_req : ℕ → Payload
  tx_param_setup_req : TxParamSetupReq → Payload
  rejoin_param_setup_req : ℕ → ℕ → Payload
  rejoin_param_setup_ans : Bool → Payload
  ping_slot_info_req : ℕ → Payload
  ping_slot_channel_req : ℕ → ℕ → Payload
  ping_slot_channel_ans : Bool → Bool → Payload
  device_time_ans : ℕ → Payload
  rekey_ind : ℕ → Payload
  rekey_conf : ℕ → Payload
  reset_ind : ℕ → Payload
  reset_conf : ℕ → Payload
  device_mode_ind : DeviceModeClass → Payload
  device_mode_conf : DeviceModeClass → Payload

pub record MacCommand : Type 0 where
  pub cid : ℕ
  pub payload : Payload
