-- ===== src/Uplink/Flow.antt =====
-- The tasks of internal/uplink/data/data.go that change the session of an uplink, from setADR to
-- syncUplinkFCnt. Left out are sendUplinkMetaDataToNetworkController and
-- storeDeviceGatewayRXInfoSet, which read the session only; where one of them fails, the flow ends
-- there and the session is not saved.
pub mod Saved
pub mod Sent
pub mod Trace
use chirpstack_network_serve.Prelude.{
  ℕ, ◌+◌, Bool, true, false, ◌||◌, ◌&&◌, Option, none, some, List, [], ◌∷◌, ◌++◌, length, map, u32,
  ◌==◌, if◌then◌else◌,
}
use chirpstack_network_serve.Prelude.Int.{ℤ, pos}
use chirpstack_network_serve.Float.{FloatOps}
use chirpstack_network_serve.Lorawan.{MacCommand}
use chirpstack_network_serve.SessionData.{DeviceSession, UplinkHistory, KeyEnvelope}
use chirpstack_network_serve.Session.History.{append_uplink_history}
use chirpstack_network_serve.Device.{DeviceMode, mode_a, mode_b, RxInfo, update_device_mode, Env}
use chirpstack_network_serve.MacCommand.Block.{Block}
use chirpstack_network_serve.Uplink.Commands.{
  HandleUplinkData, UplinkEffect, device_effect, recreate_device_queue, uplink_data, Calls, Round,
  handle_uplink_mac_commands,
}

-- An element of the FRMPayload after the decryption: a MAC command, the bytes of a
-- *lorawan.DataPayload, or a payload of another type.
pub data FrmPayload : Type 0 where
  command : MacCommand → FrmPayload
  data_payload : List ℕ → FrmPayload
  other_payload : FrmPayload

-- What the tasks read of the frame, whose payloads are decrypted.
pub record Frame : Type 0 where
  pub f_cnt : ℕ
  pub adr : Bool
  pub class_b : Bool
  pub f_port : Option ℕ
  pub f_opts : List (Option MacCommand)
  pub confirmed : Bool
  pub frm_payload : List FrmPayload

-- What the tasks change of the context.
pub record UplinkContext : Type 0 where
  pub session : DeviceSession
  pub mac_command_responses : List Block
  pub must_send_downlink : Bool
  pub effects : List UplinkEffect

-- A task leaves the context, and whether it returned without an error.
abbrev pub Task : Type 0
Task = UplinkContext → UplinkContext × Bool

-- The frame, the arguments of the MAC commands, and how the calls for the device's mode and for its
-- queue end.
pub record Setting : Type 0 where
  pub frame : Frame
  pub env : Env
  pub calls : Calls
  pub mode_ok : Bool
  pub queue_ok : Bool

-- setADR
unfoldable pub set_adr : Setting → Task
set_adr st ctx = (record ctx { session = record ctx.session { adr = st.frame.adr } }, true)

-- setUplinkDataRate
unfoldable pub set_uplink_data_rate : Setting → Task
set_uplink_data_rate st ctx =
    let s = ctx.session in
    let dr = st.env.rx_packet.dr in
    (
      record ctx {
        session =
            if s.dr == dr
            then record s { dr = dr }
            else record s { tx_power_index = 0; uplink_history = []; dr = dr };
      },
      true,
    )

abbrev same : Bool → Bool → Bool
same true b = b
same false true = false
same false false = true

abbrev mode_of : Bool → DeviceMode
mode_of true = mode_b
mode_of false = mode_a

-- setBeaconLocked: with the beacon locked the device-queue is created anew.
unfoldable pub set_beacon_locked : Setting → Task
set_beacon_locked st ctx =
    let locked = st.frame.class_b in
    let changed = record ctx { session = record ctx.session { beacon_locked = locked } } in
    let mode = device_effect (update_device_mode (mode_of locked)) in
    if same ctx.session.beacon_locked locked
    then (ctx, true)
    else if st.mode_ok
    then (if locked
        then (if st.queue_ok
            then (
              record changed { effects = ctx.effects ++ mode ∷ recreate_device_queue ∷ [] },
              true,
            )
            else (record changed { effects = ctx.effects ++ mode ∷ [] }, false))
        else (record changed { effects = ctx.effects ++ mode ∷ [] }, true))
    else (changed, false)

-- The call of handleUplinkMACCommands, whose error is only logged.
abbrev pub handle_commands : Setting → List (Option MacCommand) → UplinkContext → UplinkContext
handle_commands st commands ctx =
    elim (handle_uplink_mac_commands st.env st.calls ctx.session commands) [
      | none ↦ ctx
      | some r ↦ record {
        session = r.0.0;
        mac_command_responses = ctx.mac_command_responses ++ r.0.1.0;
        must_send_downlink = ctx.must_send_downlink || r.1;
        effects = ctx.effects ++ r.0.1.1;
      }
    ]

-- handleFOptsMACCommands
unfoldable pub handle_f_opts_mac_commands : Setting → Task
handle_f_opts_mac_commands st ctx = elim st.frame.f_opts [
  | [] ↦ (ctx, true)
  | c ∷ cs ↦ (handle_commands st (c ∷ cs) ctx, true)
]

abbrev is_port_0 : Option ℕ → Bool
is_port_0 none = false
is_port_0 (some p) = p == 0

-- The type assertion of the loop that groups the commands.
abbrev pub command_of : FrmPayload → Option MacCommand
command_of (command cmd) = some cmd
command_of _ = none

-- handleFRMPayloadMACCommands
unfoldable pub handle_frm_payload_mac_commands : Setting → Task
handle_frm_payload_mac_commands st ctx =
    if is_port_0 st.frame.f_port
    then elim st.frame.frm_payload [
      | [] ↦ (ctx, false)
      | c ∷ cs ↦ (handle_commands st (map command_of (c ∷ cs)) ctx, true)
    ]
    else (ctx, true)

-- The loop of appendMetaDataToUplinkHistory after the first item.
abbrev max_snr_from : FloatOps → ℕ → List RxInfo → ℕ
max_snr_from f best [] = best
max_snr_from f best (i ∷ is) = max_snr_from f (if f.lt best i.lora_snr then i.lora_snr else best) is

abbrev max_snr : FloatOps → List RxInfo → ℕ
max_snr f [] = f.of_ℤ (pos 0)
max_snr f (i ∷ is) = max_snr_from f i.lora_snr is

-- appendMetaDataToUplinkHistory; MaxRSSI is not set.
unfoldable pub append_meta_data_to_uplink_history : Setting → Task
append_meta_data_to_uplink_history st ctx =
    let infos = st.env.rx_packet.rx_info_set in
    let up : UplinkHistory = record {
      f_cnt = st.frame.f_cnt;
      max_snr = max_snr st.env.float infos;
      max_rssi = pos 0;
      tx_power_index = ctx.session.tx_power_index;
      gateway_count = length infos;
    } in
    (record ctx { session = append_uplink_history ctx.session up }, true)

-- The bytes of the only element, for a port other than 0; `none` is the error on another type.
unfoldable pub application_data : Frame → Option (List ℕ)
application_data frame = elim frame.f_port [
  | none ↦ some []
  | some p ↦ elim frame.frm_payload [
    | [] ↦ some []
    | x ∷ y ∷ ys ↦ some []
    | x ∷ [] ↦ if p == 0 then some [] else elim x [ data_payload bytes ↦ some bytes | _ ↦ none ]
  ]
]

abbrev activation_context : DeviceSession → Option (ℕ × KeyEnvelope)
activation_context ds = elim ds.app_s_key_envelope [ none ↦ none | some k ↦ some (ds.dev_addr, k) ]

abbrev port_or_zero : Option ℕ → ℕ
port_or_zero none = 0
port_or_zero (some p) = p

abbrev pub uplink_data_request : Setting → DeviceSession → List ℕ → HandleUplinkData
uplink_data_request st ds bytes = record {
  dev_eui = ds.dev_eui;
  join_eui = ds.join_eui;
  f_cnt = st.frame.f_cnt;
  adr = st.frame.adr;
  confirmed_uplink = st.frame.confirmed;
  dr = u32 st.env.rx_packet.dr;
  device_activation_context = activation_context ds;
  f_port = port_or_zero st.frame.f_port;
  payload = bytes;
}

-- sendFRMPayloadToApplicationServer: the envelope of the AppSKey is sent once.
unfoldable pub send_frm_payload_to_application_server : Setting → Task
send_frm_payload_to_application_server st ctx = elim (application_data st.frame) [
  | none ↦ (ctx, false)
  | some bytes ↦ (
    record ctx {
      session = record ctx.session { app_s_key_envelope = none };
      effects = ctx.effects ++ uplink_data (uplink_data_request st ctx.session bytes) ∷ [];
    },
    true,
  )
]

-- syncUplinkFCnt
unfoldable pub sync_uplink_f_cnt : Setting → Task
sync_uplink_f_cnt st ctx =
    (record ctx { session = record ctx.session { f_cnt_up = u32 (st.frame.f_cnt + 1) } }, true)

-- The tasks run until one returns an error.
unfoldable pub run_tasks : List Task → Task
run_tasks [] ctx = (ctx, true)
run_tasks (t ∷ ts) ctx =
    let r = t ctx in let rest = run_tasks ts r.0 in if r.1 then rest else (r.0, false)

-- The tasks in the order of `tasks`.
abbrev pub session_tasks : Setting → List Task
session_tasks st =
    set_adr st
    ∷ set_uplink_data_rate st
    ∷ set_beacon_locked st
    ∷ handle_f_opts_mac_commands st
    ∷ handle_frm_payload_mac_commands st
    ∷ append_meta_data_to_uplink_history st
    ∷ send_frm_payload_to_application_server st
    ∷ sync_uplink_f_cnt st
    ∷ []

abbrev pub start : DeviceSession → UplinkContext
start ds = record {
  session = ds;
  mac_command_responses = [];
  must_send_downlink = false;
  effects = [];
}

-- The session that saveDeviceSession stores, and `none` where a task returned an error;
-- abortOnDeviceIsDisabled comes first.
unfoldable pub saved_session : Setting → DeviceSession → Option DeviceSession
saved_session st ds =
    let r = run_tasks (session_tasks st) (start ds) in
    if ds.is_disabled then none else if r.1 then some r.0.session else none
