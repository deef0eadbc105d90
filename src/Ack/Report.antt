-- ===== src/Ack/Report.antt =====
-- sendDownlinkMetaDataToNetworkController and logDownlinkFrame of internal/downlink/ack/ack.go.
-- The frame-logs' own errors are only logged. The log for the device holds the frame as decrypted,
-- which is left out of its message.
use chirpstack_network_serve.Prelude.{
  ℕ, ◌+◌, Bool, false, not, ◌&&◌, Option, none, some, List, [], ◌∷◌, ◌==◌, if◌then◌else◌, length,
  u32,
}
use chirpstack_network_serve.Gateway.{MType, proprietary, other_m_type, MacPayload}
use chirpstack_network_serve.Ack.{
  handle_downlink_meta_data, log_for_gateway, log_for_device, MetaData, unmarshal,
  decrypt_frm_payload, decrypt_f_opts, marshal, Env, AckContext, Task, Error, done, fail,
  has_application_payload,
}
use chirpstack_network_serve.Ack.Tasks.{say}

-- The bytes of the payloads that can be marshalled, as uint32.
unfoldable pub byte_count : List (Option (List ℕ)) → ℕ
byte_count [] = 0
byte_count (none ∷ ps) = byte_count ps
byte_count (some bytes ∷ ps) = u32 (length bytes + byte_count ps)

abbrev application_bytes : Option MacPayload → ℕ
application_bytes none = 0
application_bytes (some p) =
    if has_application_payload (some p) then byte_count p.frm_payload else 0

abbrev mac_command_bytes : Option MacPayload → ℕ
mac_command_bytes none = 0
mac_command_bytes (some p) =
    if has_application_payload (some p)
    then byte_count p.f_opts
    else u32 (byte_count p.frm_payload + byte_count p.f_opts)

-- The message type that the network-controller gets; any other one is left unset.
abbrev meta_data_type : MType → MType
meta_data_type proprietary = other_m_type
meta_data_type t = t

-- sendDownlinkMetaDataToNetworkController
unfoldable pub send_downlink_meta_data_to_network_controller : Task
unfolding byte_count
send_downlink_meta_data_to_network_controller (ctx, st) =
    let meta : MetaData = record {
      gateway_id = ctx.frame.downlink_frame.gateway_id;
      dev_eui = ctx.frame.dev_eui;
      multicast_group_id = ctx.frame.multicast_group_id;
      tx_info = ctx.frame_item.tx_info;
      message_type = meta_data_type ctx.m_type;
      phy_payload_byte_count = u32 (length ctx.frame_item.phy_payload);
      application_payload_byte_count = application_bytes ctx.mac_payload;
      mac_command_byte_count = mac_command_bytes ctx.mac_payload;
    } in
    done (ctx, say (handle_downlink_meta_data meta) st)

abbrev address : Option MacPayload → Option ℕ
address none = none
address (some p) = some p.dev_addr

abbrev is_port_0 : Option ℕ → Bool
is_port_0 none = false
is_port_0 (some p) = p == 0

abbrev on_port_0 : Option MacPayload → Bool
on_port_0 none = false
on_port_0 (some p) = is_port_0 p.f_port

-- The error before the frame is logged for the device, if any.
abbrev log_error : Env → AckContext → Option Error
log_error env ctx =
    let bytes = ctx.frame_item.phy_payload in
    let key = ctx.frame.nwk_s_enc_key in
    if not (env.unmarshal_binary bytes).complete
    then some unmarshal
    else if on_port_0 ctx.mac_payload && not (env.decrypt_frm_payload_ok key bytes)
    then some decrypt_frm_payload
    else if ctx.frame.encrypted_f_opts && not (env.decrypt_f_opts_ok key bytes)
    then some decrypt_f_opts
    else if not (env.marshal_ok key bytes)
    then some marshal
    else none

-- logDownlinkFrame
unfoldable pub log_downlink_frame : Env → Task
log_downlink_frame env (ctx, st) =
    let dev_addr = address ctx.mac_payload in
    let logged = say (log_for_gateway ctx.frame_item ctx.m_type dev_addr) st in
    elim ctx.frame.dev_eui [
      | none ↦ done (ctx, logged)
      | some dev_eui ↦ elim (log_error env ctx) [
        | some e ↦ fail e (ctx, logged)
        | none ↦ done (ctx, say (log_for_device dev_eui ctx.m_type dev_addr) logged)
      ]
    ]
