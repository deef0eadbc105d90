-- ===== src/MacCommand/LinkAdr/Outcome.antt =====
-- handleLinkADRAns: the outcome of an exchange for the session.
use chirpstack_network_serve.Prelude.{
  ℕ, ◌+◌, ◌-◌, ◌<◌, ◌≡◌, ◌==◌, none, Bool, true, false, ◌&&◌, ◌||◌, not, Option, some, List, [], ok,
  if◌then◌else◌, arith,
}
use chirpstack_network_serve.Prelude.Assoc.{lookup-insert, lookup-remove}
use chirpstack_network_serve.Lorawan.{LinkAdrReq}
use chirpstack_network_serve.Lorawan.Cid
use chirpstack_network_serve.Lorawan.Band.{Band}
use chirpstack_network_serve.SessionData.{DeviceSession}
use chirpstack_network_serve.MacCommand.Block.{Block, error_count}
use chirpstack_network_serve.MacCommand.LinkAdr.{Acks, apply_acks, handle_link_adr_ans}
use chirpstack_network_serve.MacCommand.LinkAdr.Answers.{
  Exchange, acks_of, handle_link_adr_ans-apply_acks,
}

-- The session takes the channels that the band computes, and of each other parameter the requested
-- value where the device acknowledged it.
pub record Accepted (ds : DeviceSession) (req : LinkAdrReq) (acks : Acks) (cs : List ℕ)
    (ds' : DeviceSession) : Type 0 where
  pub channels : ds'.enabled_uplink_channels ≡ cs
  pub nb_trans : ds'.nb_trans ≡ req.nb_rep
  pub dr : ds'.dr ≡ (if acks.data_rate then req.data_rate else ds.dr)
  pub tx_power_index : ds'.tx_power_index ≡ (if acks.power then req.tx_power else ds.tx_power_index)
  pub min_kept : ds'.min_supported_tx_power_index ≡ ds.min_supported_tx_power_index
  pub max_kept : ds'.max_supported_tx_power_index ≡ ds.max_supported_tx_power_index
  pub errors : error_count ds' Cid.link_adr ≡ 0

-- The largest supported power index; 0 stands for `not set`.
abbrev pub supported : DeviceSession → Option ℕ
supported ds =
    if ds.max_supported_tx_power_index == 0 then none else some ds.max_supported_tx_power_index

-- The session keeps its channels, data-rate and repetitions, and learns from a refused power.
pub record Refused (ds : DeviceSession) (req : LinkAdrReq) (acks : Acks) (ds' : DeviceSession)
    : Type 0 where
  pub channels : ds'.enabled_uplink_channels ≡ ds.enabled_uplink_channels
  pub nb_trans : ds'.nb_trans ≡ ds.nb_trans
  pub dr : ds'.dr ≡ ds.dr
  pub errors : error_count ds' Cid.link_adr ≡ error_count ds Cid.link_adr + 1
  -- an accepted power changes nothing
  pub power_ok :
      acks.power ≡ true
      → (ds'.tx_power_index ≡ ds.tx_power_index)
        × (ds'.min_supported_tx_power_index ≡ ds.min_supported_tx_power_index)
        × (ds'.max_supported_tx_power_index ≡ ds.max_supported_tx_power_index)
  -- a refused power above 1 bounds what is requested from now on, and a refused power 1 leaves no
  -- bound at all
  pub power_refused :
      acks.power ≡ false
      → 0 < req.tx_power
      → (supported ds' ≡ (if req.tx_power == 1 then none else some (req.tx_power - 1)))
        × (ds'.tx_power_index ≡ ds.tx_power_index)
        × (ds'.min_supported_tx_power_index ≡ ds.min_supported_tx_power_index)
  -- the workaround for a refused power 0
  pub power_zero :
      acks.power ≡ false
      → req.tx_power ≡ 0
      → (ds'.tx_power_index ≡ 1)
        × (ds'.min_supported_tx_power_index ≡ 1)
        × (ds'.max_supported_tx_power_index ≡ ds.max_supported_tx_power_index)

-- The device accepts if it acknowledges all, or the channel mask while its ADR is disabled.
abbrev pub accepts : DeviceSession → Acks → Bool
accepts ds acks =
    (acks.channel_mask && acks.data_rate && acks.power) || (not ds.adr && acks.channel_mask)

apply_acks-Accepted :
    (band : Band LinkAdrReq) (ds : DeviceSession) (reqs : List LinkAdrReq) (req : LinkAdrReq)
    (acks : Acks) (cs : List ℕ)
    → accepts ds acks ≡ true
    → band.get_enabled_channels_for_payloads ds.enabled_uplink_channels reqs ≡ some cs
    → ((apply_acks band ds reqs req acks).1 ≡ ok [])
      × Accepted ds req acks cs (apply_acks band ds reqs req acks).0
unfolding apply_acks error_count
apply_acks-Accepted band ds reqs req acks cs h e =
    ground (arith, lookup-remove Cid.link_adr Cid.link_adr ds.mac_command_error_count)

apply_acks-Refused :
    (band : Band LinkAdrReq) (ds : DeviceSession) (reqs : List LinkAdrReq) (req : LinkAdrReq)
    (acks : Acks)
    → accepts ds acks ≡ false
    → ((apply_acks band ds reqs req acks).1 ≡ ok [])
      × Refused ds req acks (apply_acks band ds reqs req acks).0
unfolding apply_acks error_count
apply_acks-Refused band ds reqs req acks h = ground (
  arith,
  lookup-insert Cid.link_adr Cid.link_adr (error_count ds Cid.link_adr + 1)
      ds.mac_command_error_count,
)

module _ (band : Band LinkAdrReq) (ds : DeviceSession) (block : Block) (pending : Option Block)
    (reqs : List LinkAdrReq) (req : LinkAdrReq) (x : Exchange block pending reqs req) where
  -- Where the device accepts (it acknowledged everything in each answer, or every channel mask and
  -- its ADR is disabled) and the band computes the enabled channels from all requests, the handler
  -- succeeds without a response, and the session takes the channels, the repetitions and what was
  -- acknowledged of the data-rate and the power from the last request; its error count is reset.
  pub handle_link_adr_ans-Accepted :
      (cs : List ℕ)
      → accepts ds (acks_of block.mac_commands) ≡ true
      → band.get_enabled_channels_for_payloads ds.enabled_uplink_channels reqs ≡ some cs
      → ((handle_link_adr_ans band ds block pending).1 ≡ ok [])
        × Accepted ds req
            (acks_of block.mac_commands)
            cs
            (handle_link_adr_ans band ds block pending).0
  handle_link_adr_ans-Accepted cs a e =
      rw (handle_link_adr_ans-apply_acks band ds block pending reqs req x)
        (apply_acks-Accepted band ds reqs req (acks_of block.mac_commands) cs a e)

  -- Where the device does not accept, the handler succeeds without a response, the channels, the
  -- data-rate and the repetitions of the session stay, its error count grows by one, and a refused
  -- power index above 1 becomes an upper bound: the largest supported index is the one below it.
  -- A refused power 1 leaves that bound not set, whatever it was: its field becomes 0. A refused
  -- power 0 sets the index and its lower bound to 1.
  pub handle_link_adr_ans-Refused :
      accepts ds (acks_of block.mac_commands) ≡ false
      → ((handle_link_adr_ans band ds block pending).1 ≡ ok [])
        × Refused ds req (acks_of block.mac_commands) (handle_link_adr_ans band ds block pending).0
  handle_link_adr_ans-Refused a =
      rw (handle_link_adr_ans-apply_acks band ds block pending reqs req x)
        (apply_acks-Refused band ds reqs req (acks_of block.mac_commands) a)
