-- ===== src/Downlink/Requests/Settle.antt =====
-- The set-up requests of internal/downlink/data/data.go together with the handlers of their answers
-- in internal/maccommand.
use chirpstack_network_serve.Prelude.{ℕ, ◌<◌, ◌≡◌, Bool, true, some, [], arith}
use chirpstack_network_serve.Lorawan.{
  LinkAdrReq, rx_param_setup_ans, rejoin_param_setup_ans, ping_slot_channel_ans,
}
use chirpstack_network_serve.Lorawan.Cid
use chirpstack_network_serve.Lorawan.Band.{Band}
use chirpstack_network_serve.Profile.{DeviceProfile}
use chirpstack_network_serve.SessionData.{DeviceSession}
use chirpstack_network_serve.MacCommand.Block.{Block, one_command}
use chirpstack_network_serve.MacCommand.Setup.{
  request_rx_param_setup, handle_rx_param_setup_ans, request_rx_timing_setup,
  handle_rx_timing_setup_ans, request_tx_param_setup, handle_tx_param_setup_ans,
  request_rejoin_param_setup, handle_rejoin_param_setup_ans, request_ping_slot_channel,
  handle_ping_slot_channel_ans,
}
use chirpstack_network_serve.Downlink.Requests.{
  Config, set_rx_parameters, set_tx_parameters, request_rejoin_param, set_ping_slot_parameters,
  device_max_eirp_index,
}

module _ (conf : Config) (ds : DeviceSession) where
  -- Once the device has answered the request for the receive windows, accepting all of it, and the
  -- one for the delay, the network server requests neither again.
  pub set_rx_parameters_settle :
      (timing : Block)
      → let accepted = one_command Cid.rx_param_setup (rx_param_setup_ans true true true) in
        let sent = request_rx_param_setup conf.rx1_dr_offset conf.rx2_frequency conf.rx2_dr in
        let windows = (handle_rx_param_setup_ans ds accepted (some sent)).0 in
        set_rx_parameters conf
          (handle_rx_timing_setup_ans windows timing
            (some (request_rx_timing_setup conf.rx1_delay))).0
        ≡ []
  unfolding set_rx_parameters request_rx_param_setup request_rx_timing_setup
      handle_rx_param_setup_ans handle_rx_timing_setup_ans
  set_rx_parameters_settle timing = ground arith

  -- Once the device has answered the request for the rejoin parameters, which fit in a byte, the
  -- network server does not request them again, whatever the answer's time bit is.
  pub request_rejoin_param_settle :
      (time_ok : Bool)
      → conf.rejoin_request_max_time_n < 256
      → conf.rejoin_request_max_count_n < 256
      → let answer = one_command Cid.rejoin_param_setup (rejoin_param_setup_ans time_ok) in
        let sent =
          request_rejoin_param_setup conf.rejoin_request_max_time_n
            conf.rejoin_request_max_count_n in
        request_rejoin_param conf (handle_rejoin_param_setup_ans ds answer (some sent)).0 ≡ []
  unfolding request_rejoin_param request_rejoin_param_setup handle_rejoin_param_setup_ans
  request_rejoin_param_settle time_ok h k = ground arith

  -- Once the device has accepted the frequency and the data-rate of the ping-slots, the network
  -- server does not request them again; the data-rate fits in a byte.
  pub set_ping_slot_parameters_settle :
      (dp : DeviceProfile)
      → conf.class_b_ping_slot_dr < 256
      → let accepted = one_command Cid.ping_slot_channel (ping_slot_channel_ans true true) in
        let sent =
          request_ping_slot_channel conf.class_b_ping_slot_dr conf.class_b_ping_slot_frequency in
        set_ping_slot_parameters conf dp (handle_ping_slot_channel_ans ds accepted (some sent)).0
        ≡ []
  unfolding set_ping_slot_parameters request_ping_slot_channel handle_ping_slot_channel_ans
  set_ping_slot_parameters_settle dp h = ground arith

  -- Once the device has answered the request for the dwell times and the EIRP, the network server
  -- does not request them again.
  pub set_tx_parameters_settle :
      (band : Band LinkAdrReq) (eirp_index : ℕ → ℕ) (dp : DeviceProfile) (answer : Block)
      → let sent =
          request_tx_param_setup conf.uplink_dwell_time_400ms conf.downlink_dwell_time_400ms
            (device_max_eirp_index eirp_index conf dp) in
        set_tx_parameters band eirp_index conf dp
          (handle_tx_param_setup_ans ds answer (some sent)).0
        ≡ []
  unfolding set_tx_parameters request_tx_param_setup handle_tx_param_setup_ans
  set_tx_parameters_settle band eirp_index dp answer = ground arith
