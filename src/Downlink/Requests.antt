-- ===== src/Downlink/Requests.antt =====
-- The functions of internal/downlink/data/data.go that compare the session with the configuration
-- and request what differs. Each returns the blocks that it appends to ctx.MACCommands. Package
-- variables that Setup reads from the configuration are the record `Config`.
pub mod Settle
use chirpstack_network_serve.Prelude.{
  ℕ, ◌+◌, ◌-◌, ◌*◌, ◌/◌, ◌≡◌, Bool, true, false, not, ◌&&◌, ◌||◌, Option, none, some, List, [], ◌∷◌,
  ◌++◌, u8, ltb, leb, ◌==◌, ◌!=◌, if◌then◌else◌, map, contains,
}
use chirpstack_network_serve.Prelude.Assoc.{Assoc, lookup}
use chirpstack_network_serve.Gps.{second}
use chirpstack_network_serve.Lorawan.{LinkAdrReq, MacCommand, link_adr_req, no_payload}
use chirpstack_network_serve.Lorawan.Cid
use chirpstack_network_serve.Lorawan.Band.{Band, Channel}
use chirpstack_network_serve.Profile.{DeviceProfile, ServiceProfile}
use chirpstack_network_serve.SessionData.{DeviceSession}
use chirpstack_network_serve.Session.Boot.{MacVersion, lorawan_1_0, lorawan_1_1, get_mac_version}
use chirpstack_network_serve.MacCommand.Block.{Block, one_command}
use chirpstack_network_serve.MacCommand.NewChannel.{request_new_channels}
use chirpstack_network_serve.MacCommand.Setup.{
  request_rx_param_setup, request_rx_timing_setup, request_tx_param_setup,
  request_rejoin_param_setup, request_ping_slot_channel,
}

-- The package variables.
pub record Config : Type 0 where
  pub rejoin_request_enabled : Bool
  pub rejoin_request_max_count_n : ℕ
  pub rejoin_request_max_time_n : ℕ
  pub class_b_ping_slot_dr : ℕ
  pub class_b_ping_slot_frequency : ℕ
  pub rx2_frequency : ℕ
  pub rx2_dr : ℕ
  pub rx1_dr_offset : ℕ
  pub rx1_delay : ℕ
  pub uplink_dwell_time_400ms : Bool
  pub downlink_dwell_time_400ms : Bool
  pub uplink_max_eirp_index : ℕ
  pub disable_mac_commands : Bool
  pub max_mac_command_error_count : ℕ
  pub disable_adr : Bool
  pub installation_margin : ℕ  -- float32

abbrev is_1_0 : MacVersion → Bool
is_1_0 lorawan_1_0 = true
is_1_0 lorawan_1_1 = false

abbrev same : Bool → Bool → Bool
same true b = b
same false b = not b

-- requestDevStatus: the session with the time of the request, and the blocks.
unfoldable pub request_dev_status : ServiceProfile → ℕ → DeviceSession → DeviceSession × List Block
request_dev_status sp now ds =
    if sp.dev_status_req_freq == 0
    then (ds, [])
    else if leb (24 * 3600 * second / sp.dev_status_req_freq) (now - ds.last_dev_status_requested)
    then (record ds { last_dev_status_requested = now }, one_command Cid.dev_status no_payload ∷ [])
    else (ds, [])

-- requestRejoinParamSetup
unfoldable pub request_rejoin_param : Config → DeviceSession → List Block
request_rejoin_param conf ds =
    if not conf.rejoin_request_enabled || is_1_0 (get_mac_version ds)
    then []
    else if not ds.rejoin_request_enabled
        || ds.rejoin_request_max_count_n != conf.rejoin_request_max_count_n
        || ds.rejoin_request_max_time_n != conf.rejoin_request_max_time_n
    then request_rejoin_param_setup conf.rejoin_request_max_time_n conf.rejoin_request_max_count_n
      ∷ []
    else []

-- setPingSlotParameters
unfoldable pub set_ping_slot_parameters : Config → DeviceProfile → DeviceSession → List Block
set_ping_slot_parameters conf dp ds =
    if not dp.supports_class_b
    then []
    else if conf.class_b_ping_slot_dr != ds.ping_slot_dr
        || conf.class_b_ping_slot_frequency != ds.ping_slot_frequency
    then request_ping_slot_channel conf.class_b_ping_slot_dr conf.class_b_ping_slot_frequency ∷ []
    else []

-- setRXParameters
unfoldable pub set_rx_parameters : Config → DeviceSession → List Block
set_rx_parameters conf ds =
    (if ds.rx2_frequency != conf.rx2_frequency
        || ds.rx2_dr != u8 conf.rx2_dr
        || ds.rx1_dr_offset != u8 conf.rx1_dr_offset
      then request_rx_param_setup conf.rx1_dr_offset conf.rx2_frequency conf.rx2_dr ∷ []
      else [])
    ++ (if ds.rx_delay != u8 conf.rx1_delay
        then request_rx_timing_setup conf.rx1_delay ∷ []
        else [])

-- The smaller of the two EIRP limits; `eirp_index` is lorawan.GetTXParamSetupEIRPIndex.
abbrev pub device_max_eirp_index : (ℕ → ℕ) → Config → DeviceProfile → ℕ
device_max_eirp_index eirp_index conf dp =
    if ltb (eirp_index dp.max_eirp) conf.uplink_max_eirp_index
    then eirp_index dp.max_eirp
    else conf.uplink_max_eirp_index

-- setTXParameters
unfoldable pub set_tx_parameters :
    Band LinkAdrReq → (ℕ → ℕ) → Config → DeviceProfile → DeviceSession → List Block
set_tx_parameters band eirp_index conf dp ds =
    if not (band.implements_tx_param_setup ds.mac_version)
    then []
    else if not (same ds.uplink_dwell_time_400ms conf.uplink_dwell_time_400ms)
        || not (same ds.downlink_dwell_time_400ms conf.downlink_dwell_time_400ms)
        || ds.uplink_max_eirp_index != device_max_eirp_index eirp_index conf dp
    then request_tx_param_setup conf.uplink_dwell_time_400ms conf.downlink_dwell_time_400ms
        (device_max_eirp_index eirp_index conf dp)
      ∷ []
    else []

-- The wanted channels: those of the band's custom indices; `none` is the error of the band.
unfoldable pub wanted_channels : Band LinkAdrReq → List ℕ → Option (Assoc Channel)
wanted_channels band [] = some []
wanted_channels band (i ∷ is) =
    let rest = wanted_channels band is in
    elim (band.get_uplink_channel i) [
      | none ↦ none
      | some c ↦ elim rest [ none ↦ none | some m ↦ some ((i, c) ∷ m) ]
    ]

-- The extra channels of the session that are still wanted.
unfoldable pub cleanup_channels : Assoc Channel → Assoc Channel → Assoc Channel
cleanup_channels wanted [] = []
cleanup_channels wanted ((i, c) ∷ m) =
    let rest = cleanup_channels wanted m in
    elim (lookup i wanted) [ none ↦ rest | some w ↦ (i, c) ∷ rest ]

abbrev to_list : Option Block → List Block
to_list none = []
to_list (some b) = b ∷ []

-- requestCustomChannelReconfiguration: the session without the channels that are gone, and the
-- blocks; `none` is the error of the band.
unfoldable pub request_custom_channel_reconfiguration :
    Band LinkAdrReq → DeviceSession → Option (DeviceSession × List Block)
unfolding wanted_channels cleanup_channels
request_custom_channel_reconfiguration band ds =
    elim (wanted_channels band band.get_custom_uplink_channel_indices) [
      | none ↦ none
      | some wanted ↦
          let extra = cleanup_channels wanted ds.extra_uplink_channels in
          some (
            record ds { extra_uplink_channels = extra },
            to_list (request_new_channels 3 extra wanted),
          )
    ]

-- The last payload carries the parameters of the session.
abbrev with_session : DeviceSession → List LinkAdrReq → List LinkAdrReq
with_session ds [] = []
with_session ds (r ∷ []) =
    record r { tx_power = u8 ds.tx_power_index; data_rate = u8 ds.dr; nb_rep = ds.nb_trans } ∷ []
with_session ds (r ∷ s ∷ rs) = r ∷ with_session ds (s ∷ rs)

abbrev link_adr_command : LinkAdrReq → MacCommand
link_adr_command r = record { cid = Cid.link_adr; payload = link_adr_req r }

-- HandleChannelReconfigure of internal/channels/channels.go, as
-- requestChannelMaskReconfiguration appends its blocks.
unfoldable pub handle_channel_reconfigure : Band LinkAdrReq → DeviceSession → List Block
handle_channel_reconfigure band ds =
    elim (with_session ds (band.get_link_adr_req_payloads ds.enabled_uplink_channels)) [
      | [] ↦ []
      | r ∷ rs ↦
          record {
            cid = Cid.link_adr;
            external = false;
            mac_commands = map link_adr_command (r ∷ rs);
          }
          ∷ []
    ]
