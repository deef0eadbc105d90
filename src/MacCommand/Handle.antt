-- ===== src/MacCommand/Handle.antt =====
-- Handle of internal/maccommand/maccommand.go: the handler of a received block by its identifier.
pub mod Context
use chirpstack_network_serve.Prelude.{List, [], err, Option, ◌==◌, if◌then◌else◌}
use chirpstack_network_serve.Lorawan.Cid
use chirpstack_network_serve.SessionData.{DeviceSession}
use chirpstack_network_serve.Device.{Effect, Env}
use chirpstack_network_serve.MacCommand.Block.{Block, Handled, undefined_cid}
use chirpstack_network_serve.MacCommand.LinkAdr.{handle_link_adr_ans}
use chirpstack_network_serve.MacCommand.NewChannel.{handle_new_channel_ans}
use chirpstack_network_serve.MacCommand.Setup.{
  handle_rx_param_setup_ans, handle_rx_timing_setup_ans, handle_tx_param_setup_ans,
  handle_rejoin_param_setup_ans, handle_ping_slot_channel_ans,
}
use chirpstack_network_serve.MacCommand.Inform.{
  handle_link_check_req, handle_rekey_ind, handle_reset_ind, handle_ping_slot_info_req,
  handle_device_time_req, handle_device_mode_ind, handle_dev_status_ans,
}

-- A handler with no effect outside the session.
abbrev pure : Handled → Handled × List Effect
pure h = (h, [])

-- Handle
unfoldable pub handle : Env → DeviceSession → Block → Option Block → Handled × List Effect
handle env ds block pending =
    if block.cid == Cid.link_adr
    then pure (handle_link_adr_ans env.band ds block pending)
    else if block.cid == Cid.link_check
    then pure (handle_link_check_req env.float ds env.rx_packet)
    else if block.cid == Cid.dev_status
    then handle_dev_status_ans env ds block
    else if block.cid == Cid.ping_slot_info
    then pure (handle_ping_slot_info_req ds block)
    else if block.cid == Cid.ping_slot_channel
    then pure (handle_ping_slot_channel_ans ds block pending)
    else if block.cid == Cid.device_time
    then pure (handle_device_time_req env.now ds env.rx_packet)
    else if block.cid == Cid.new_channel
    then pure (handle_new_channel_ans ds block pending)
    else if block.cid == Cid.rx_param_setup
    then pure (handle_rx_param_setup_ans ds block pending)
    else if block.cid == Cid.tx_param_setup
    then pure (handle_tx_param_setup_ans ds block pending)
    else if block.cid == Cid.rx_timing_setup
    then pure (handle_rx_timing_setup_ans ds block pending)
    else if block.cid == Cid.rekey
    then pure (handle_rekey_ind ds block)
    else if block.cid == Cid.reset
    then pure (handle_reset_ind env ds block)
    else if block.cid == Cid.rejoin_param_setup
    then pure (handle_rejoin_param_setup_ans ds block pending)
    else if block.cid == Cid.device_mode
    then handle_device_mode_ind env ds block
    else pure (ds, err (undefined_cid block.cid))
