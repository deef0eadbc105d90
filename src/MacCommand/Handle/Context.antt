-- ===== src/MacCommand/Handle/Context.antt =====
-- Handle of internal/maccommand/maccommand.go and the part of the session that is not the MAC layer's:
-- identity, keys, frame-counters and history.
use chirpstack_network_serve.Prelude.{
  ℕ, String, ◌≡◌, refl, ◌∙◌, Bool, Option, some, List, [], ◌∷◌, arith, Option-cases, inl, inr,
}
use chirpstack_network_serve.Lorawan.{
  LinkAdrReq, MacCommand, Payload, new_channel_ans, new_channel_req,
}
use chirpstack_network_serve.Lorawan.Band.{Band}
use chirpstack_network_serve.SessionData.{DeviceSession, UplinkHistory, KeyEnvelope}
use chirpstack_network_serve.Session.Boot.{reset_to_boot_parameters}
use chirpstack_network_serve.Device.{Env}
use chirpstack_network_serve.MacCommand.Block.{Block, commands_of, increase_error_count}
use chirpstack_network_serve.MacCommand.LinkAdr.{handle_link_adr_ans}
use chirpstack_network_serve.MacCommand.NewChannel.{
  answer_channel, answer_channels, accept_channel, handle_new_channel_ans,
}
use chirpstack_network_serve.MacCommand.Setup.{
  handle_rx_param_setup_ans, handle_rx_timing_setup_ans, handle_tx_param_setup_ans,
  handle_rejoin_param_setup_ans, handle_ping_slot_channel_ans,
}
use chirpstack_network_serve.MacCommand.Inform.{
  handle_link_check_req, handle_rekey_ind, handle_reset_ind, handle_ping_slot_info_req,
  handle_device_time_req, handle_device_mode_ind, handle_dev_status_ans,
}
use chirpstack_network_serve.MacCommand.Handle.{handle}

-- Identity, keys, frame-counters, history and status of the device.
pub record Context : Type 0 where
  pub mac_version : String
  pub dev_addr : ℕ
  pub dev_eui : ℕ
  pub join_eui : ℕ
  pub keys : ℕ × ℕ × ℕ × Option KeyEnvelope
  pub f_cnts : ℕ × ℕ × ℕ × ℕ
  pub skip_f_cnt_validation : Bool
  pub uplink_history : List UplinkHistory
  pub adr : Bool
  pub is_disabled : Bool

abbrev pub context_of : DeviceSession → Context
context_of s = record {
  mac_version = s.mac_version;
  dev_addr = s.dev_addr;
  dev_eui = s.dev_eui;
  join_eui = s.join_eui;
  keys = (s.f_nwk_s_int_key, s.s_nwk_s_int_key, s.nwk_s_enc_key, s.app_s_key_envelope);
  f_cnts = (s.f_cnt_up, s.n_f_cnt_down, s.a_f_cnt_down, s.conf_f_cnt);
  skip_f_cnt_validation = s.skip_f_cnt_validation;
  uplink_history = s.uplink_history;
  adr = s.adr;
  is_disabled = s.is_disabled;
}

module _ (ds : DeviceSession) (block : Block) (pending : Option Block) where
  handle_link_adr_ans-context :
      (band : Band LinkAdrReq)
      → context_of (handle_link_adr_ans band ds block pending).0 ≡ context_of ds
  unfolding handle_link_adr_ans
  handle_link_adr_ans-context band = ground arith

  handle_rx_param_setup_ans-context :
      context_of (handle_rx_param_setup_ans ds block pending).0 ≡ context_of ds
  unfolding handle_rx_param_setup_ans
  handle_rx_param_setup_ans-context = ground arith

  handle_rx_timing_setup_ans-context :
      context_of (handle_rx_timing_setup_ans ds block pending).0 ≡ context_of ds
  unfolding handle_rx_timing_setup_ans
  handle_rx_timing_setup_ans-context = ground arith

  handle_tx_param_setup_ans-context :
      context_of (handle_tx_param_setup_ans ds block pending).0 ≡ context_of ds
  unfolding handle_tx_param_setup_ans
  handle_tx_param_setup_ans-context = ground arith

  handle_rejoin_param_setup_ans-context :
      context_of (handle_rejoin_param_setup_ans ds block pending).0 ≡ context_of ds
  unfolding handle_rejoin_param_setup_ans
  handle_rejoin_param_setup_ans-context = ground arith

  handle_ping_slot_channel_ans-context :
      context_of (handle_ping_slot_channel_ans ds block pending).0 ≡ context_of ds
  unfolding handle_ping_slot_channel_ans
  handle_ping_slot_channel_ans-context = ground arith

reset_to_boot_parameters-context :
    (env : Env) (ds : DeviceSession)
    → context_of (reset_to_boot_parameters env.band ds env.device_profile) ≡ context_of ds
unfolding reset_to_boot_parameters
reset_to_boot_parameters-context env ds = ground arith

module _ (env : Env) (ds : DeviceSession) (block : Block) where
  handle_link_check_req-context :
      context_of (handle_link_check_req env.float ds env.rx_packet).0 ≡ context_of ds
  unfolding handle_link_check_req
  handle_link_check_req-context = ground arith

  handle_rekey_ind-context : context_of (handle_rekey_ind ds block).0 ≡ context_of ds
  unfolding handle_rekey_ind
  handle_rekey_ind-context = ground arith

  handle_reset_ind-context : context_of (handle_reset_ind env ds block).0 ≡ context_of ds
  unfolding handle_reset_ind
  handle_reset_ind-context = ground (arith, reset_to_boot_parameters-context env ds)

  handle_ping_slot_info_req-context :
      context_of (handle_ping_slot_info_req ds block).0 ≡ context_of ds
  unfolding handle_ping_slot_info_req
  handle_ping_slot_info_req-context = ground arith

  handle_device_time_req-context :
      context_of (handle_device_time_req env.now ds env.rx_packet).0 ≡ context_of ds
  unfolding handle_device_time_req
  handle_device_time_req-context = ground arith

  handle_device_mode_ind-context :
      context_of (handle_device_mode_ind env ds block).0.0 ≡ context_of ds
  unfolding handle_device_mode_ind
  handle_device_mode_ind-context = ground arith

  handle_dev_status_ans-context :
      context_of (handle_dev_status_ans env ds block).0.0 ≡ context_of ds
  unfolding handle_dev_status_ans
  handle_dev_status_ans-context = ground arith

answer_channel-context :
    (ds : DeviceSession) (a r : Payload) (d : DeviceSession)
    → answer_channel ds a r ≡ some d
    → context_of d ≡ context_of ds
unfolding accept_channel increase_error_count
answer_channel-context ds (new_channel_ans f o) (new_channel_req req) d h = ground arith
answer_channel-context ds _ _ d h = cc

answer_channels-context :
    (ds : DeviceSession) (xs rs : List MacCommand)
    → context_of (answer_channels ds xs rs).0 ≡ context_of ds
unfolding answer_channels
answer_channels-context ds [] rs = refl
answer_channels-context ds (x ∷ xs) [] = refl
answer_channels-context ds (x ∷ xs) (r ∷ rs) =
    elim (Option-cases (answer_channel ds x.payload r.payload)) [
      | inl e ↦ rw (e, answer_channels) refl
      | inr (d, e) ↦
          rw (e, answer_channels)
            (answer_channels-context d xs rs ∙ answer_channel-context ds x.payload r.payload d e)
    ]

handle_new_channel_ans-context :
    (ds : DeviceSession) (block : Block) (pending : Option Block)
    → context_of (handle_new_channel_ans ds block pending).0 ≡ context_of ds
unfolding handle_new_channel_ans
handle_new_channel_ans-context ds block pending =
    ground (arith, answer_channels-context ds block.mac_commands (commands_of pending))

-- No MAC command changes the identity, the keys, the frame-counters, the uplink history, the ADR
-- bit or the disabled flag of the session, whatever the block, its answers and what is pending are,
-- and also where the handler fails.
pub handle-context :
    (env : Env) (ds : DeviceSession) (block : Block) (pending : Option Block)
    → context_of (handle env ds block pending).0.0 ≡ context_of ds
unfolding handle
handle-context env ds block pending = ground (
  arith,
  handle_link_adr_ans-context ds block pending env.band,
  handle_link_check_req-context env ds block,
  handle_dev_status_ans-context env ds block,
  handle_ping_slot_info_req-context env ds block,
  handle_ping_slot_channel_ans-context ds block pending,
  handle_device_time_req-context env ds block,
  handle_new_channel_ans-context ds block pending,
  handle_rx_param_setup_ans-context ds block pending,
  handle_tx_param_setup_ans-context ds block pending,
  handle_rx_timing_setup_ans-context ds block pending,
  handle_rekey_ind-context env ds block,
  handle_reset_ind-context env ds block,
  handle_rejoin_param_setup_ans-context ds block pending,
  handle_device_mode_ind-context env ds block,
)
