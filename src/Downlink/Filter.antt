-- ===== src/Downlink/Filter.antt =====
-- filterIncompatibleMACCommands and setMACCommands of internal/downlink/data/data.go.
pub mod Compatible
use chirpstack_network_serve.Prelude.{
  ℕ, ◌≡◌, Bool, true, false, ◌&&◌, ◌||◌, Option, none, some, List, [], ◌∷◌, ◌++◌, Result, ok, err,
  leb, ◌==◌, if◌then◌else◌,
}
use chirpstack_network_serve.Lorawan.Cid
use chirpstack_network_serve.SessionData.{DeviceSession}
use chirpstack_network_serve.MacCommand.Block.{Block, error_count}
use chirpstack_network_serve.Downlink.Requests.{Config}

-- The identifier stands in the list.
abbrev pub seen : ℕ → List Block → Bool
seen cid [] = false
seen cid (b ∷ bs) = cid == b.cid || seen cid bs

-- The loop that cuts out the blocks with an identifier.
unfoldable pub without : ℕ → List Block → List Block
without cid [] = []
without cid (b ∷ bs) = let rest = without cid bs in if b.cid == cid then rest else b ∷ rest

abbrev without_all : List ℕ → List Block → List Block
without_all [] bs = bs
without_all (cid ∷ cids) bs = without_all cids (without cid bs)

-- The loop over the mappings.
abbrev filter_mappings : List (ℕ × List ℕ) → List Block → List Block
filter_mappings [] bs = bs
filter_mappings ((cid, conflicting) ∷ ms) bs =
    filter_mappings ms (if seen cid bs then without_all conflicting bs else bs)

-- incompatibleMACCommands
abbrev pub incompatible_mac_commands : List (ℕ × List ℕ)
incompatible_mac_commands =
    (Cid.new_channel, Cid.link_adr ∷ []) ∷ (Cid.link_adr, Cid.new_channel ∷ []) ∷ []

-- filterIncompatibleMACCommands
unfoldable pub filter_incompatible_mac_commands : List Block → List Block
filter_incompatible_mac_commands bs = filter_mappings incompatible_mac_commands bs

-- The blocks that an external service enqueued.
unfoldable pub external_blocks : List Block → List Block
external_blocks [] = []
external_blocks (b ∷ bs) = let rest = external_blocks bs in if b.external then b ∷ rest else rest

-- The blocks whose errors do not exceed the limit.
unfoldable pub within_error_count : ℕ → DeviceSession → List Block → List Block
within_error_count limit ds [] = []
within_error_count limit ds (b ∷ bs) =
    let rest = within_error_count limit ds bs in
    if leb (error_count ds b.cid) limit then b ∷ rest else rest

-- What setMACCommands does in Redis.
pub data QueueEffect : Type 0 where
  set_pending : Block → QueueEffect
  delete_queue_item : Block → QueueEffect

pub data Error : Type 0 where
  pending_error queue_error : Error

-- How the calls of Redis end: SetPendingMACCommand and DeleteMACCommandQueueItem.
pub record Redis : Type 0 where
  pub set_pending_ok : Block → Bool
  pub delete_ok : Block → Bool

-- The loop over the blocks that are sent: the effects, and the error that ended it.
unfoldable pub mark_pending : Redis → List Block → List QueueEffect × Result Error (Unit {0})
mark_pending redis [] = ([], ok tt)
mark_pending redis (b ∷ bs) =
    let rest = mark_pending redis bs in
    if redis.set_pending_ok b
    then (if b.external
        then (if redis.delete_ok b
            then (set_pending b ∷ delete_queue_item b ∷ rest.0, rest.1)
            else (set_pending b ∷ [], err queue_error))
        else (set_pending b ∷ rest.0, rest.1))
    else ([], err pending_error)

-- The blocks that setMACCommands keeps of those that its functions collected.
unfoldable pub select_mac_commands : Config → DeviceSession → List Block → List Block
select_mac_commands conf ds blocks = filter_incompatible_mac_commands (
    within_error_count conf.max_mac_command_error_count ds
      (if conf.disable_mac_commands then external_blocks blocks else blocks))

-- setMACCommands, after its functions: ctx.MACCommands, the effects and the error.
unfoldable pub set_mac_commands :
    Config
    → Redis
    → DeviceSession
    → List Block
    → List Block × (List QueueEffect × Result Error (Unit {0}))
set_mac_commands conf redis ds blocks =
    let selected = select_mac_commands conf ds blocks in (selected, mark_pending redis selected)
