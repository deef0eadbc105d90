-- ===== src/Ack.antt =====
-- internal/downlink/ack/ack.go: the acknowledgement that a gateway sends for a downlink. A task
-- changes the context and what is stored, and ends with an error or none. The statements and
-- the Redis commands succeed; keys do not expire in between.
pub mod Zero
pub mod Tasks
pub mod Report
pub mod Flow
pub mod Refused
pub mod Steps
pub mod Choice
pub mod Legacy
pub mod Accepted
use chirpstack_network_serve.Prelude.{
  ℕ, ◌+◌, Bool, true, false, not, ◌&&◌, ◌||◌, Option, none, some, List, [], ◌∷◌, ◌++◌, String, ◌==◌,
  if◌then◌else◌,
}
use chirpstack_network_serve.Prelude.Assoc.{Assoc}
use chirpstack_network_serve.Gateway.{
  FrameItem, TxInfo, GatewayFrame, Status, accepted, refused, TxAck, MType, unconfirmed_data_down,
  confirmed_data_down, other_m_type, MacPayload, Decoded,
}
use chirpstack_network_serve.Profile.{DeviceProfile}
use chirpstack_network_serve.SessionData.{DeviceSession}
use chirpstack_network_serve.Queue
use chirpstack_network_serve.Queue.{Item, Table}

-- DownlinkFrame of internal/storage/downlink_frame.proto
pub record DownlinkFrame : Type 0 where
  pub token : ℕ
  pub dev_eui : Option ℕ
  pub device_queue_item_id : ℕ
  pub multicast_group_id : Option ℕ
  pub multicast_queue_item_id : ℕ
  pub downlink_frame : GatewayFrame
  pub routing_profile_id : ℕ
  pub encrypted_f_opts : Bool
  pub nwk_s_enc_key : ℕ

-- The tables of PostgreSQL that the tasks change: the device-queue, and the ids of the multicast-queue.
pub record Database : Type 0 where
  pub device_queue : Table
  pub multicast_queue : List ℕ

-- HandleDownlinkMetaDataRequest
pub record MetaData : Type 0 where
  pub gateway_id : ℕ
  pub dev_eui : Option ℕ
  pub multicast_group_id : Option ℕ
  pub tx_info : TxInfo
  pub message_type : MType
  pub phy_payload_byte_count : ℕ
  pub application_payload_byte_count : ℕ
  pub mac_command_byte_count : ℕ

-- The messages to the gateway, the application-server and the network-controller, and the entries
-- of the frame log.
pub data Message : Type 0 where
  send_tx_packet : GatewayFrame → Message
  handle_tx_ack : Option ℕ → ℕ → ℕ → TxInfo → Message
  handle_error : Option ℕ → ℕ → Status → Message
  handle_downlink_meta_data : MetaData → Message
  log_for_gateway : FrameItem → MType → Option ℕ → Message
  log_for_device : ℕ → MType → Option ℕ → Message

-- What is stored, by DevEUI and by token, and the messages sent, in their order.
pub record Store : Type 0 where
  pub database : Database
  pub sessions : Assoc DeviceSession
  pub frames : Assoc DownlinkFrame
  pub messages : List Message

pub data Error : Type 0 where
  abort does_not_exist no_items too_many_items invalid_ack_error : Error
  application_server gateway unmarshal decrypt_frm_payload decrypt_f_opts marshal : Error
  queue : Queue.Error → Error

-- The clock, the LoRaWAN library (UnmarshalBinary, and whether the decryption of the FRMPayload and
-- of the FOpts and then MarshalBinary succeed for a frame), the numbers of the named statuses,
-- and which calls succeed: GetDevice, GetAndCacheDeviceProfile, the application-server's client of
-- a routing-profile, and the gateway's backend.
pub record Env : Type 0 where
  pub now : ℕ
  pub unmarshal_binary : List ℕ → Decoded
  pub decrypt_frm_payload_ok : ℕ → List ℕ → Bool
  pub decrypt_f_opts_ok : ℕ → List ℕ → Bool
  pub marshal_ok : ℕ → List ℕ → Bool
  pub status_value : String → Option Status
  pub device_exists : ℕ → Bool
  pub device_profile : ℕ → Option DeviceProfile
  pub as_client_ok : ℕ → Bool
  pub gateway_ok : GatewayFrame → Bool

-- ackContext
pub record AckContext : Type 0 where
  pub tx_ack : TxAck
  pub status : Status
  pub token : ℕ
  pub frame : DownlinkFrame
  pub frame_item : FrameItem
  pub session : DeviceSession
  pub profile : DeviceProfile
  pub queue_item : Item
  pub m_type : MType
  pub mac_payload : Option MacPayload

abbrev pub State : Type 0
State = AckContext × Store

-- `func(*ackContext) error`
abbrev pub Task : Type 0
Task = State → State × Option Error

abbrev pub done : State → State × Option Error
done s = (s, none)

abbrev pub fail : Error → Task
fail e s = (s, some e)

-- The loop over tasks, which returns the first error.
unfoldable pub run_tasks : List Task → Task
run_tasks [] s = (s, none)
run_tasks (t ∷ ts) s =
    let rest : State → State × Option Error = λ u. run_tasks ts u in
    elim (t s).1 [ none ↦ rest (t s).0 | some e ↦ ((t s).0, some e) ]

abbrev pub is_accepted : Status → Bool
is_accepted accepted = true
is_accepted (refused n) = false

abbrev pub is_some {ℓ} : {A : Type ℓ} → Option A → Bool
is_some none = false
is_some (some a) = true

-- The tasks run under a condition.
unfoldable pub when : (AckContext → Bool) → List Task → Task
when condition ts s = if condition s.0 then run_tasks ts s else (s, none)

abbrev pub is_refused_ack : AckContext → Bool
is_refused_ack ctx = not (is_accepted ctx.status)

abbrev pub is_accepted_ack : AckContext → Bool
is_accepted_ack ctx = is_accepted ctx.status

-- onError
unfoldable pub on_error : List Task → Task
unfolding when
on_error = when is_refused_ack

-- onNoError
unfoldable pub on_no_error : List Task → Task
unfolding when
on_no_error = when is_accepted_ack

-- No port, or the MAC-layer's.
abbrev pub is_mac_port : Option ℕ → Bool
is_mac_port none = true
is_mac_port (some p) = p == 0

abbrev pub mac_only : Option MacPayload → Bool
mac_only none = false
mac_only (some p) = is_mac_port p.f_port

abbrev pub has_application_payload : Option MacPayload → Bool
has_application_payload none = false
has_application_payload (some p) = not (is_mac_port p.f_port)

abbrev pub for_application : AckContext → Bool
for_application ctx = is_some ctx.frame.dev_eui && has_application_payload ctx.mac_payload

-- forApplicationPayload
unfoldable pub for_application_payload : List Task → Task
unfolding when
for_application_payload = when for_application

abbrev pub for_mac_only : AckContext → Bool
for_mac_only ctx = is_some ctx.frame.dev_eui && mac_only ctx.mac_payload

-- forMACOnlyPayload
unfoldable pub for_mac_only_payload : List Task → Task
unfolding when
for_mac_only_payload = when for_mac_only

abbrev pub for_multicast : AckContext → Bool
for_multicast ctx =
    is_some ctx.frame.multicast_group_id && not (ctx.frame.multicast_queue_item_id == 0)

-- forMulticastPayload
unfoldable pub for_multicast_payload : List Task → Task
unfolding when
for_multicast_payload = when for_multicast

abbrev pub is_unconfirmed : MType → Bool
is_unconfirmed unconfirmed_data_down = true
is_unconfirmed _ = false

abbrev pub is_confirmed : MType → Bool
is_confirmed confirmed_data_down = true
is_confirmed _ = false

abbrev pub for_unconfirmed : AckContext → Bool
for_unconfirmed ctx = is_unconfirmed ctx.m_type

abbrev pub for_confirmed : AckContext → Bool
for_confirmed ctx = is_confirmed ctx.m_type

-- forUnconfirmedDownlink
unfoldable pub for_unconfirmed_downlink : List Task → Task
unfolding when
for_unconfirmed_downlink = when for_unconfirmed

-- forConfirmedDownlink
unfoldable pub for_confirmed_downlink : List Task → Task
unfolding when
for_confirmed_downlink = when for_confirmed

-- transaction: the database is rolled back where a task fails; Redis and the context are not.
unfoldable pub transaction : List Task → Task
transaction ts s = elim (run_tasks ts s).1 [
  | none ↦ run_tasks ts s
  | some e ↦
      (((run_tasks ts s).0.0, record (run_tasks ts s).0.1 { database = s.1.database }), some e)
]
