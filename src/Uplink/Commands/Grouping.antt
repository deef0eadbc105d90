-- ===== src/Uplink/Commands/Grouping.antt =====
-- handleUplinkMACCommands: the grouping of the commands by identifier.
use chirpstack_network_serve.Prelude.{
  append_nil, ℕ, ◌≡◌, refl, ◌∙◌, ap, sym, subst, ◌||◌, Option, none, some, List, [], ◌∷◌, ◌++◌,
  ◌==◌, if◌then◌else◌, arith, contains, Distinct,
}
use chirpstack_network_serve.Lorawan.{MacCommand}
use chirpstack_network_serve.MacCommand.Block.{Block}
use chirpstack_network_serve.Uplink.Commands.{add_command, group_commands}

-- The commands of the frame with one identifier, in their order.
abbrev pub with_cid : ℕ → List (Option MacCommand) → List MacCommand
with_cid c [] = []
with_cid c (none ∷ cmds) = with_cid c cmds
with_cid c (some cmd ∷ cmds) = if cmd.cid == c then cmd ∷ with_cid c cmds else with_cid c cmds

-- The commands of the block with one identifier.
abbrev pub commands_with : ℕ → List Block → List MacCommand
commands_with c [] = []
commands_with c (b ∷ bs) = if b.cid == c then b.mac_commands else commands_with c bs

abbrev pub cids : List Block → List ℕ
cids [] = []
cids (b ∷ bs) = b.cid ∷ cids bs

commands_with-add_command :
    (c : ℕ) (bs : List Block) (cmd : MacCommand)
    → commands_with c (add_command bs cmd)
      ≡ (if cmd.cid == c then commands_with c bs ++ cmd ∷ [] else commands_with c bs)
unfolding add_command
commands_with-add_command c [] cmd = ground arith
commands_with-add_command c (b ∷ bs) cmd = ground (arith, commands_with-add_command c bs cmd)

contains-cids :
    (c : ℕ) (bs : List Block) (cmd : MacCommand)
    → contains (cids (add_command bs cmd)) c ≡ (contains (cids bs) c || cmd.cid == c)
unfolding add_command
contains-cids c [] cmd = ground arith
contains-cids c (b ∷ bs) cmd = ground (arith, contains-cids c bs cmd)

Distinct-add_command :
    (bs : List Block) (cmd : MacCommand) → Distinct (cids bs) → Distinct (cids (add_command bs cmd))
unfolding add_command
Distinct-add_command [] cmd d = (refl, tt)
Distinct-add_command (b ∷ bs) cmd d =
    ground (arith, contains-cids b.cid bs cmd, Distinct-add_command bs cmd d.1)

append_cons : (xs ys : List MacCommand) (x : MacCommand) → (xs ++ x ∷ []) ++ ys ≡ xs ++ x ∷ ys
append_cons [] ys x = refl
append_cons (a ∷ xs) ys x = ap (λ l. a ∷ l) (append_cons xs ys x)

-- The state of the loop: the identifiers are distinct, and the commands of one are those that the
-- blocks had before and those of the frame.
group_commands-from :
    (before : List Block) (cmds : List (Option MacCommand)) (bs : List Block)
    → Distinct (cids before)
    → group_commands before cmds ≡ some bs
    → Distinct (cids bs)
      × ((c : ℕ) → commands_with c bs ≡ commands_with c before ++ with_cid c cmds)
unfolding group_commands
group_commands-from before [] bs d e =
    let same : before ≡ bs = cc in
    (
      subst (λ x. Distinct (cids x)) same d,
      λ c. ap (commands_with c) (sym same) ∙ sym (append_nil (commands_with c before)),
    )
group_commands-from before (none ∷ cmds) bs d e = cc
group_commands-from before (some cmd ∷ cmds) bs d e =
    let ih =
      group_commands-from (add_command before cmd) cmds bs (Distinct-add_command before cmd d) e in
    (
      ih.0,
      λ c. ground (
        arith,
        ih.1 c,
        commands_with-add_command c before cmd,
        append_cons (commands_with c before) (with_cid c cmds) cmd,
      ),
    )

-- The blocks that a frame's commands are grouped into have distinct identifiers, and the block of
-- an identifier holds the commands of the frame with that identifier, all and in their order.
pub group_commands_lem :
    (cmds : List (Option MacCommand)) (bs : List Block)
    → group_commands [] cmds ≡ some bs
    → Distinct (cids bs) × ((c : ℕ) → commands_with c bs ≡ with_cid c cmds)
group_commands_lem cmds bs e = group_commands-from [] cmds bs tt e
