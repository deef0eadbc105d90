-- ===== src/Uplink/Commands/Handling.antt =====
-- handleUplinkMACCommands: the loop over the blocks, and when a downlink must follow.
use chirpstack_network_serve.Prelude.{
  ◌≡◌, refl, ◌∙◌, Bool, true, false, ◌||◌, Option, none, some, List, [], ◌∷◌, arith, Option-cases,
  inl, inr,
}
use chirpstack_network_serve.Lorawan.{MacCommand}
use chirpstack_network_serve.SessionData.{DeviceSession}
use chirpstack_network_serve.Device.{Env}
use chirpstack_network_serve.MacCommand.Block.{Block}
use chirpstack_network_serve.MacCommand.Handle.Context.{context_of, handle-context}
use chirpstack_network_serve.Uplink.Commands.{
  add_command, group_commands, UplinkEffect, report, Calls, marshal_all, Round, handle_pending,
  handle_block, is_sticky, must_respond, handle_blocks, handle_uplink_mac_commands,
}

handle_block-context :
    (env : Env) (calls : Calls) (ds : DeviceSession) (b : Block)
    → context_of (handle_block env calls ds b).0 ≡ context_of ds
unfolding handle_block handle_pending
handle_block-context env calls ds b = elim (Option-cases (calls.get_pending b.cid)) [
  | inl e ↦ ground (arith, e)
  | inr (p, e) ↦ ground (arith, e, handle-context env ds b p)
]

handle_blocks-context :
    (env : Env) (calls : Calls) (ds : DeviceSession) (bs : List Block)
    → context_of (handle_blocks env calls ds bs).0 ≡ context_of ds
unfolding handle_blocks
handle_blocks-context env calls ds [] = refl
handle_blocks-context env calls ds (b ∷ bs) =
    handle_blocks-context env calls (handle_block env calls ds b).0 bs
    ∙ handle_block-context env calls ds b

must_respond-add_command :
    (bs : List Block) (cmd : MacCommand)
    → must_respond (add_command bs cmd) ≡ (must_respond bs || is_sticky cmd.cid)
unfolding add_command
must_respond-add_command [] cmd = ground arith
must_respond-add_command (b ∷ bs) cmd = ground (arith, must_respond-add_command bs cmd)

-- A command of the frame is one that the device repeats until it receives a downlink.
abbrev pub any_sticky : List (Option MacCommand) → Bool
any_sticky [] = false
any_sticky (none ∷ cmds) = any_sticky cmds
any_sticky (some cmd ∷ cmds) = is_sticky cmd.cid || any_sticky cmds

must_respond-group_commands :
    (before : List Block) (cmds : List (Option MacCommand)) (bs : List Block)
    → group_commands before cmds ≡ some bs
    → must_respond bs ≡ (must_respond before || any_sticky cmds)
unfolding group_commands
must_respond-group_commands before [] bs e = let same : before ≡ bs = cc in ground (arith, same)
must_respond-group_commands before (none ∷ cmds) bs e = cc
must_respond-group_commands before (some cmd ∷ cmds) bs e = ground (
  arith,
  must_respond-group_commands (add_command before cmd) cmds bs e,
  must_respond-add_command before cmd,
)

pub handle_uplink_mac_commands_lem :
    (env : Env) (calls : Calls) (ds : DeviceSession) (cmds : List (Option MacCommand)) (r : Round)
    (must : Bool)
    → handle_uplink_mac_commands env calls ds cmds ≡ some (r, must)
    → (context_of r.0 ≡ context_of ds) × (must ≡ any_sticky cmds)
unfolding handle_uplink_mac_commands
handle_uplink_mac_commands_lem env calls ds cmds r must h =
    elim (Option-cases (group_commands [] cmds)) [
      | inl e ↦ absurd (ground (arith, e))
      | inr (bs, e) ↦ ground (
        arith,
        e,
        handle_blocks-context env calls ds bs,
        must_respond-group_commands [] cmds bs e,
      )
    ]

abbrev pub reports : Calls → List Block → List UplinkEffect
reports calls [] = []
reports calls (b ∷ bs) = report b.cid (marshal_all calls.marshal b.mac_commands) ∷ reports calls bs

-- With the network server's MAC commands disabled, the session stays as it is, no response is
-- collected, and every block is reported to the network-controller, in order.
pub handle_blocks-disabled :
    (env : Env) (calls : Calls) (ds : DeviceSession) (bs : List Block)
    → calls.disable_mac_commands ≡ true
    → handle_blocks env calls ds bs ≡ (ds, ([], reports calls bs))
unfolding handle_blocks handle_block
handle_blocks-disabled env calls ds [] h = refl
handle_blocks-disabled env calls ds (b ∷ bs) h =
    ground (arith, h, handle_blocks-disabled env calls ds bs h)
