-- ===== src/MacCommand/LinkAdr.antt =====
-- handleLinkADRAns of internal/maccommand/link_adr.go.
pub mod Answers
pub mod Outcome
use chirpstack_network_serve.Prelude.{
  ℕ, suc, ◌+◌, ◌-◌, ◌<◌, ◌≡◌, refl, Bool, true, false, not, ◌&&◌, Option, none, some, List, [], ◌∷◌,
  Result, ok, err, ltb, ◌==◌, if◌then◌else◌, arith, last?, All,
}
use chirpstack_network_serve.Lorawan.{MacCommand, Payload, LinkAdrReq, link_adr_ans, link_adr_req}
use chirpstack_network_serve.Lorawan.Cid
use chirpstack_network_serve.Lorawan.Band.{Band}
use chirpstack_network_serve.SessionData.{DeviceSession}
use chirpstack_network_serve.MacCommand.Block.{
  Block, Handled, commands_of, no_commands, no_pending, unexpected_payload, panic, band_error,
  error_count, increase_error_count, reset_error_count, error_count-increase, error_count-reset,
}

-- channelMaskACK, dataRateACK and powerACK
pub record Acks : Type 0 where
  pub channel_mask : Bool
  pub data_rate : Bool
  pub power : Bool

abbrev answer_of : Payload → Option Acks
answer_of (link_adr_ans c d p) = some (record { channel_mask = c; data_rate = d; power = p })
answer_of _ = none

-- One round of the loop.
abbrev pub merge : Acks → Acks → Acks
merge acks a = record {
  channel_mask = if a.channel_mask then acks.channel_mask else false;
  data_rate = if a.data_rate then acks.data_rate else false;
  power = if a.power then acks.power else false;
}

-- The loop over the answers; `none` is the error on another payload.
collect_acks : Acks → List MacCommand → Option Acks
collect_acks acks [] = some acks
collect_acks acks (cmd ∷ cmds) = elim (answer_of cmd.payload) [
  | none ↦ none
  | some a ↦ collect_acks (merge acks a) cmds
]

abbrev request_of : Payload → Option LinkAdrReq
request_of (link_adr_req r) = some r
request_of _ = none

-- The payloads of the pending block; `none` is the panic of the unchecked assertion.
unfoldable pub requests_of : List MacCommand → Option (List LinkAdrReq)
requests_of [] = some []
requests_of (cmd ∷ cmds) =
    let rest = requests_of cmds in
    elim (request_of cmd.payload) [
      | none ↦ none
      | some r ↦ elim rest [ none ↦ none | some rs ↦ some (r ∷ rs) ]
    ]

-- The else branch: the request was not acknowledged.
unfoldable pub not_acknowledged : DeviceSession → LinkAdrReq → Acks → DeviceSession
unfolding increase_error_count
not_acknowledged ds req acks =
    let d = increase_error_count Cid.link_adr ds in
    let e =
      if not acks.power && req.tx_power == 0
      then record d { tx_power_index = 1; min_supported_tx_power_index = 1 }
      else d in
    if not acks.power && ltb 0 req.tx_power
    then record e { max_supported_tx_power_index = req.tx_power - 1 }
    else e

-- The branch on the three bits, for the requests and the last one of them.
unfoldable pub apply_acks :
    Band LinkAdrReq → DeviceSession → List LinkAdrReq → LinkAdrReq → Acks → Handled
unfolding not_acknowledged reset_error_count
apply_acks band ds reqs req acks =
    let chans = band.get_enabled_channels_for_payloads ds.enabled_uplink_channels reqs in
    let d = reset_error_count Cid.link_adr ds in
    if acks.channel_mask && acks.data_rate && acks.power
    then elim chans [
      | none ↦ (d, err band_error)
      | some cs ↦ (
        record d {
          tx_power_index = req.tx_power;
          dr = req.data_rate;
          nb_trans = req.nb_rep;
          enabled_uplink_channels = cs;
        },
        ok [],
      )
    ]
    else if not ds.adr && acks.channel_mask
    then elim chans [
      | none ↦ (d, err band_error)
      | some cs ↦ (
        record d {
          enabled_uplink_channels = cs;
          nb_trans = req.nb_rep;
          dr = if acks.data_rate then req.data_rate else ds.dr;
          tx_power_index = if acks.power then req.tx_power else ds.tx_power_index;
        },
        ok [],
      )
    ]
    else (not_acknowledged ds req acks, ok [])

abbrev all_acks : Acks
all_acks = record { channel_mask = true; data_rate = true; power = true }

with_requests : Band LinkAdrReq → DeviceSession → Acks → Option (List LinkAdrReq) → Handled
unfolding apply_acks
with_requests band ds acks none = (ds, err panic)
with_requests band ds acks (some reqs) = elim (last? reqs) [
  | none ↦ (ds, err panic)
  | some req ↦ apply_acks band ds reqs req acks
]

-- handleLinkADRAns
unfoldable pub handle_link_adr_ans :
    Band LinkAdrReq → DeviceSession → Block → Option Block → Handled
unfolding with_requests collect_acks requests_of
handle_link_adr_ans band ds block pending = elim block.mac_commands [
  | [] ↦ (ds, err no_commands)
  | cmd ∷ cmds ↦ elim (commands_of pending) [
    | [] ↦ (ds, err no_pending)
    | p ∷ ps ↦ elim (collect_acks all_acks (cmd ∷ cmds)) [
      | none ↦ (ds, err unexpected_payload)
      | some acks ↦ with_requests band ds acks (requests_of (p ∷ ps))
    ]
  ]
]
