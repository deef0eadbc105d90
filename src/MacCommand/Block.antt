-- ===== src/MacCommand/Block.antt =====
-- MACCommandBlock of internal/storage/mac_command.go, the errors of the handlers, and what they
-- share: the pending block and the error counters of the session.
use chirpstack_network_serve.Prelude.{
  ℕ, ◌+◌, ◌≡◌, Bool, Option, none, some, List, [], ◌∷◌, Result, ◌==◌, if◌then◌else◌, arith,
}
use chirpstack_network_serve.Prelude.Assoc.{lookup, insert, remove, lookup-insert, lookup-remove}
use chirpstack_network_serve.Lorawan.{MacCommand, Payload}
use chirpstack_network_serve.SessionData.{DeviceSession}

-- MACCommandBlock
pub record Block : Type 0 where
  pub cid : ℕ
  pub external : Bool
  pub mac_commands : List MacCommand

-- A block of one command, as the Request functions and the answers build it.
abbrev pub one_command : ℕ → Payload → Block
one_command cid payload = record {
  cid = cid;
  external = Bool.false;
  mac_commands = record { cid = cid; payload = payload } ∷ [];
}

pub data Error : Type 0 where
  no_commands : Error
  wrong_count : ℕ → Error
  no_pending : Error
  answer_count : ℕ → ℕ → Error
  unexpected_payload : Error
  -- a type assertion that is not checked
  panic : Error
  band_error : Error
  no_rx_info : Error
  unsupported_modulation : Error
  no_modulation_info : Error
  unknown_sf : ℕ → Error
  device_error : Error
  unexpected_mode : ℕ → Error
  undefined_cid : ℕ → Error

-- The session after the handler, and `([]storage.MACCommandBlock, error)`.
abbrev pub Handled : Type 0
Handled = DeviceSession × Result Error (List Block)

-- The commands of the pending block; `nil` and an empty block are refused alike.
abbrev pub commands_of : Option Block → List MacCommand
commands_of none = []
commands_of (some b) = b.mac_commands

-- ds.MACCommandErrorCount[cid], which is 0 for a missing key
unfoldable pub error_count : DeviceSession → ℕ → ℕ
error_count ds cid = elim (lookup cid ds.mac_command_error_count) [ none ↦ 0 | some n ↦ n ]

-- ds.MACCommandErrorCount[cid]++
unfoldable pub increase_error_count : ℕ → DeviceSession → DeviceSession
unfolding error_count
increase_error_count cid ds = record ds {
  mac_command_error_count = insert cid (error_count ds cid + 1) ds.mac_command_error_count;
}

-- delete(ds.MACCommandErrorCount, cid)
unfoldable pub reset_error_count : ℕ → DeviceSession → DeviceSession
reset_error_count cid ds = record ds {
  mac_command_error_count = remove cid ds.mac_command_error_count;
}

pub error_count-increase :
    (ds : DeviceSession) (c d : ℕ)
    → error_count (increase_error_count c ds) d
      ≡ (if c == d then error_count ds c + 1 else error_count ds d)
unfolding error_count increase_error_count
error_count-increase ds c d =
    ground (arith, lookup-insert c d (error_count ds c + 1) ds.mac_command_error_count)

pub error_count-reset :
    (ds : DeviceSession) (c d : ℕ)
    → error_count (reset_error_count c ds) d ≡ (if c == d then 0 else error_count ds d)
unfolding error_count reset_error_count
error_count-reset ds c d = ground (arith, lookup-remove c d ds.mac_command_error_count)
