-- ===== src/Uplink/Commands.antt =====
-- handleUplinkMACCommands of internal/uplink/data/data.go.
pub mod Grouping
pub mod Handling
use chirpstack_network_serve.Prelude.{
  ℕ, Bool, true, false, ◌||◌, Option, none, some, List, [], ◌∷◌, ◌++◌, map, ok, err, Result, ltb,
  leb, ◌==◌, if◌then◌else◌,
}
use chirpstack_network_serve.Lorawan.{MacCommand}
use chirpstack_network_serve.Lorawan.Cid
use chirpstack_network_serve.SessionData.{DeviceSession, KeyEnvelope}
use chirpstack_network_serve.Device.{Effect, Env}
use chirpstack_network_serve.MacCommand.Block.{Block, Error}
use chirpstack_network_serve.MacCommand.Handle.{handle}

-- The command is appended to the block with its identifier, or to a new one at the end.
unfoldable pub add_command : List Block → MacCommand → List Block
add_command [] cmd = record { cid = cmd.cid; external = false; mac_commands = cmd ∷ [] } ∷ []
add_command (b ∷ bs) cmd =
    let rest = add_command bs cmd in
    if b.cid == cmd.cid
    then record b { mac_commands = b.mac_commands ++ cmd ∷ [] } ∷ bs
    else b ∷ rest

-- The loop that groups the commands; the blocks stand in the order of `cids`. An element that is
-- not a *lorawan.MACCommand, or nil, is `none`.
unfoldable pub group_commands : List Block → List (Option MacCommand) → Option (List Block)
group_commands blocks [] = some blocks
group_commands blocks (none ∷ cmds) = none
group_commands blocks (some cmd ∷ cmds) = group_commands (add_command blocks cmd) cmds

-- as.HandleUplinkDataRequest, without TXInfo and RXInfo, which are passed on as received.
pub record HandleUplinkData : Type 0 where
  pub dev_eui : ℕ
  pub join_eui : ℕ
  pub f_cnt : ℕ
  pub adr : Bool
  pub confirmed_uplink : Bool
  pub dr : ℕ
  -- the DevAddr and the envelope of the AppSKey
  pub device_activation_context : Option (ℕ × KeyEnvelope)
  pub f_port : ℕ
  pub payload : List ℕ

-- What the function, setBeaconLocked and sendFRMPayloadToApplicationServer do outside the session.
pub data UplinkEffect : Type 0 where
  delete_pending : ℕ → UplinkEffect
  device_effect : Effect → UplinkEffect
  -- the transaction of setBeaconLocked
  recreate_device_queue : UplinkEffect
  -- HandleUplinkMACCommand of the network-controller, with the marshaled commands
  report : ℕ → List (List ℕ) → UplinkEffect
  -- HandleUplinkData of the application-server, from a goroutine of its own
  uplink_data : HandleUplinkData → UplinkEffect

-- What the calls return: GetPendingMACCommand, where the outer `none` is an error, and
-- MarshalBinary; and disableMACCommands.
pub record Calls : Type 0 where
  pub disable_mac_commands : Bool
  pub get_pending : ℕ → Option (Option Block)
  pub marshal : MacCommand → Option (List ℕ)

-- The commands that can be marshaled.
abbrev pub marshal_all : (MacCommand → Option (List ℕ)) → List MacCommand → List (List ℕ)
marshal_all marshal [] = []
marshal_all marshal (cmd ∷ cmds) = elim (marshal cmd) [
  | none ↦ marshal_all marshal cmds
  | some bytes ↦ bytes ∷ marshal_all marshal cmds
]

abbrev pub is_external : Option Block → Bool
is_external none = false
is_external (some b) = b.external

abbrev deletions : ℕ → Option Block → List UplinkEffect
deletions cid none = []
deletions cid (some b) = delete_pending cid ∷ []

abbrev responses : Result Error (List Block) → List Block
responses (ok bs) = bs
responses (err e) = []

-- What one round of the loop returns: the session, the response blocks and the effects.
abbrev pub Round : Type 0
Round = DeviceSession × (List Block × List UplinkEffect)

-- The call of maccommand.Handle; proprietary commands (from 0x80 on) are not handled.
unfoldable pub handle_pending : Env → DeviceSession → Block → Option Block → Round
handle_pending env ds block pending =
    let handled = handle env ds block pending in
    if ltb block.cid 128
    then (handled.0.0, (responses handled.0.1, map device_effect handled.1))
    else (ds, ([], []))

-- One round of the loop over the blocks.
unfoldable pub handle_block : Env → Calls → DeviceSession → Block → Round
unfolding handle_pending
handle_block env calls ds block =
    let reported = report block.cid (marshal_all calls.marshal block.mac_commands) ∷ [] in
    if calls.disable_mac_commands
    then (ds, ([], reported))
    else elim (calls.get_pending block.cid) [
      | none ↦ (ds, ([], []))
      | some pending ↦
          let r = handle_pending env ds block pending in
          (
            r.0,
            (
              r.1.0,
              deletions block.cid pending
                  ++ r.1.1
                  ++ (if leb 128 block.cid || is_external pending then reported else []),
            ),
          )
    ]

-- The commands that the device repeats until it receives a downlink.
abbrev pub is_sticky : ℕ → Bool
is_sticky cid = cid == Cid.rx_timing_setup || cid == Cid.rx_param_setup

abbrev pub must_respond : List Block → Bool
must_respond [] = false
must_respond (b ∷ bs) = is_sticky b.cid || must_respond bs

-- The loop over the blocks.
unfoldable pub handle_blocks : Env → Calls → DeviceSession → List Block → Round
handle_blocks env calls ds [] = (ds, ([], []))
handle_blocks env calls ds (b ∷ bs) =
    let r = handle_block env calls ds b in
    let rest = handle_blocks env calls r.0 bs in (rest.0, (r.1.0 ++ rest.1.0, r.1.1 ++ rest.1.1))

-- handleUplinkMACCommands: the round of all blocks and whether a downlink must be sent; `none` is
-- the error of the grouping, after which nothing is done.
unfoldable pub handle_uplink_mac_commands :
    Env → Calls → DeviceSession → List (Option MacCommand) → Option (Round × Bool)
handle_uplink_mac_commands env calls ds commands = elim (group_commands [] commands) [
  | none ↦ none
  | some blocks ↦ some (handle_blocks env calls ds blocks, must_respond blocks)
]
