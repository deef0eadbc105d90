-- ===== src/MacCommand/Setup.antt =====
-- The set-up commands of internal/maccommand: rx_param_setup.go, rx_timing_setup.go,
-- tx_param_setup.go, rejoin_param_setup.go and ping_slot_channel.go, each with the request and the
-- handler of its answer.
use chirpstack_network_serve.Prelude.{
  ℕ, Bool, true, false, ◌&&◌, Option, List, [], ◌∷◌, ok, err, u8, length, if◌then◌else◌,
}
use chirpstack_network_serve.Lorawan.{
  MacCommand, Payload, DwellTime, no_limit, limit_400ms, rx_param_setup_req, rx_param_setup_ans,
  rx_timing_setup_req, tx_param_setup_req, rejoin_param_setup_req, rejoin_param_setup_ans,
  ping_slot_channel_req, ping_slot_channel_ans,
}
use chirpstack_network_serve.Lorawan.Cid
use chirpstack_network_serve.SessionData.{DeviceSession}
use chirpstack_network_serve.MacCommand.Block.{
  Block, Handled, one_command, commands_of, wrong_count, no_pending, unexpected_payload, panic,
  increase_error_count, reset_error_count,
}

-- The checks that there is one answer and a pending command; then the handler reads the payloads
-- of the first pending command and of the answer.
abbrev single_answer :
    DeviceSession → Block → Option Block → (DeviceSession → Payload → Payload → Handled) → Handled
single_answer ds block pending f = elim block.mac_commands [
  | [] ↦ (ds, err (wrong_count 0))
  | a ∷ [] ↦ elim (commands_of pending) [
    | [] ↦ (ds, err no_pending)
    | p ∷ _ ↦ f ds p.payload a.payload
  ]
  | a ∷ b ∷ r ↦ (ds, err (wrong_count (length (a ∷ b ∷ r))))
]

-- RequestRXParamSetup
unfoldable pub request_rx_param_setup : ℕ → ℕ → ℕ → Block
request_rx_param_setup rx1_dr_offset rx2_frequency rx2_dr = one_command Cid.rx_param_setup (
    rx_param_setup_req (record {
      frequency = rx2_frequency;
      rx2_data_rate = u8 rx2_dr;
      rx1_dr_offset = u8 rx1_dr_offset;
    }))

-- The assertions on the pending request, which is not checked, and on the answer.
abbrev rx_param_setup : DeviceSession → Payload → Payload → Handled
rx_param_setup ds (rx_param_setup_req req) (rx_param_setup_ans channel offset dr) =
    if channel && offset && dr
    then (
      let d = reset_error_count Cid.rx_param_setup ds in
          record d {
            rx2_frequency = req.frequency;
            rx2_dr = req.rx2_data_rate;
            rx1_dr_offset = req.rx1_dr_offset;
          },
      ok [],
    )
    else (increase_error_count Cid.rx_param_setup ds, ok [])
rx_param_setup ds (rx_param_setup_req req) _ = (ds, err unexpected_payload)
rx_param_setup ds _ _ = (ds, err panic)

-- handleRXParamSetupAns
unfoldable pub handle_rx_param_setup_ans : DeviceSession → Block → Option Block → Handled
unfolding increase_error_count reset_error_count
handle_rx_param_setup_ans ds block pending = single_answer ds block pending rx_param_setup

-- RequestRXTimingSetup
unfoldable pub request_rx_timing_setup : ℕ → Block
request_rx_timing_setup del = one_command Cid.rx_timing_setup (rx_timing_setup_req (u8 del))

abbrev rx_timing_setup : DeviceSession → List MacCommand → Handled
rx_timing_setup ds [] = (ds, err no_pending)
rx_timing_setup ds (p ∷ _) = elim p.payload [
  | rx_timing_setup_req delay ↦ (record ds { rx_delay = delay }, ok [])
  | _ ↦ (ds, err panic)
]

-- handleRXTimingSetupAns; the answer has no payload and is not read.
unfoldable pub handle_rx_timing_setup_ans : DeviceSession → Block → Option Block → Handled
handle_rx_timing_setup_ans ds block pending = rx_timing_setup ds (commands_of pending)

abbrev dwell_time : Bool → DwellTime
dwell_time is_400ms = if is_400ms then limit_400ms else no_limit

abbrev is_400ms : DwellTime → Bool
is_400ms limit_400ms = true
is_400ms no_limit = false

-- RequestTXParamSetup
unfoldable pub request_tx_param_setup : Bool → Bool → ℕ → Block
request_tx_param_setup uplink_400ms downlink_400ms max_eirp = one_command Cid.tx_param_setup (
    tx_param_setup_req (record {
      downlink_dwell_time = dwell_time downlink_400ms;
      uplink_dwell_time = dwell_time uplink_400ms;
      max_eirp = max_eirp;
    }))

abbrev tx_param_setup : DeviceSession → List MacCommand → Handled
tx_param_setup ds [] = (ds, err no_pending)
tx_param_setup ds (p ∷ _) = elim p.payload [
  | tx_param_setup_req req ↦ (
    record ds {
      uplink_dwell_time_400ms = is_400ms req.uplink_dwell_time;
      downlink_dwell_time_400ms = is_400ms req.downlink_dwell_time;
      uplink_max_eirp_index = req.max_eirp;
    },
    ok [],
  )
  | _ ↦ (ds, err unexpected_payload)
]

-- handleTXParamSetupAns; the answer has no payload and is not read.
unfoldable pub handle_tx_param_setup_ans : DeviceSession → Block → Option Block → Handled
handle_tx_param_setup_ans ds block pending = tx_param_setup ds (commands_of pending)

-- RequestRejoinParamSetup
unfoldable pub request_rejoin_param_setup : ℕ → ℕ → Block
request_rejoin_param_setup max_time_n max_count_n =
    one_command Cid.rejoin_param_setup (rejoin_param_setup_req (u8 max_time_n) (u8 max_count_n))

abbrev rejoin_param_setup : DeviceSession → Payload → Payload → Handled
rejoin_param_setup ds (rejoin_param_setup_req max_time_n max_count_n)
      (rejoin_param_setup_ans time_ok) =
    (
      record ds {
        rejoin_request_enabled = true;
        rejoin_request_max_count_n = max_count_n;
        rejoin_request_max_time_n = max_time_n;
      },
      ok [],
    )
rejoin_param_setup ds (rejoin_param_setup_req max_time_n max_count_n) _ =
    (ds, err unexpected_payload)
rejoin_param_setup ds _ _ = (ds, err panic)

-- handleRejoinParamSetupAns
unfoldable pub handle_rejoin_param_setup_ans : DeviceSession → Block → Option Block → Handled
handle_rejoin_param_setup_ans ds block pending = single_answer ds block pending rejoin_param_setup

-- RequestPingSlotChannel
unfoldable pub request_ping_slot_channel : ℕ → ℕ → Block
request_ping_slot_channel dr freq =
    one_command Cid.ping_slot_channel (ping_slot_channel_req freq (u8 dr))

abbrev ping_slot_channel : DeviceSession → Payload → Payload → Handled
ping_slot_channel ds (ping_slot_channel_req freq dr) (ping_slot_channel_ans frequency_ok dr_ok) =
    if frequency_ok && dr_ok
    then (
      let d = reset_error_count Cid.ping_slot_channel ds in
          record d { ping_slot_dr = dr; ping_slot_frequency = freq },
      ok [],
    )
    else (increase_error_count Cid.ping_slot_channel ds, ok [])
ping_slot_channel ds (ping_slot_channel_req freq dr) _ = (ds, err unexpected_payload)
ping_slot_channel ds _ _ = (ds, err panic)

-- handlePingSlotChannelAns
unfoldable pub handle_ping_slot_channel_ans : DeviceSession → Block → Option Block → Handled
unfolding increase_error_count reset_error_count
handle_ping_slot_channel_ans ds block pending = single_answer ds block pending ping_slot_channel
