-- ===== src/Gateway.antt =====
-- The messages between the network server and its gateways (the package gw of chirpstack-api), with
-- the fields that the network server reads and writes, and the band's functions for a downlink.
-- Byte arrays of fixed length are the numbers they spell, `none` where they can be empty.
use chirpstack_network_serve.Prelude.{ℕ, String, List, Bool, Option}
use chirpstack_network_serve.Prelude.Int.{ℤ}

-- DownlinkTXInfo.TimingInfo
pub data Timing : Type 0 where
  immediately : Timing
  delay gps_epoch : ℕ → Timing

-- DownlinkTXInfo.ModulationInfo: the bandwidth in kHz, the bit-rate and frequency deviation.
pub data ModulationInfo : Type 0 where
  no_modulation : ModulationInfo
  lora_modulation : ℕ → ℕ → String → Bool → ModulationInfo
  fsk_modulation : ℕ → ℕ → ModulationInfo

-- DownlinkTXInfo
pub record TxInfo : Type 0 where
  pub board : ℕ
  pub antenna : ℕ
  pub context : List ℕ
  pub frequency : ℕ
  pub power : ℤ
  pub modulation_info : ModulationInfo
  pub timing : Option Timing

-- DownlinkFrameItem
pub record FrameItem : Type 0 where
  pub phy_payload : List ℕ
  pub tx_info : TxInfo

-- DownlinkFrame
pub record GatewayFrame : Type 0 where
  pub gateway_id : ℕ
  pub token : ℕ
  pub downlink_id : List ℕ
  pub items : List FrameItem

-- TxAckStatus: OK, and the number of any other status.
pub data Status : Type 0 where
  accepted : Status
  refused : ℕ → Status

-- DownlinkTXAck.
pub record TxAck : Type 0 where
  pub token : ℕ
  pub downlink_id : List ℕ
  pub error : String
  pub items : List Status

-- The message type of a LoRaWAN frame.
pub data MType : Type 0 where
  join_accept unconfirmed_data_down confirmed_data_down proprietary other_m_type : MType

-- The MAC payload of a frame, with the bytes that each part of it marshals to, `none` where it
-- cannot.
pub record MacPayload : Type 0 where
  pub dev_addr : ℕ
  pub f_cnt : ℕ
  pub f_port : Option ℕ
  pub f_opts : List (Option (List ℕ))
  pub frm_payload : List (Option (List ℕ))

-- What UnmarshalBinary leaves of a frame, and whether it returned without an error.
pub record Decoded : Type 0 where
  pub complete : Bool
  pub m_type : MType
  pub mac_payload : Option MacPayload
