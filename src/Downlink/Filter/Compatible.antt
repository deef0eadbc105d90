-- ===== src/Downlink/Filter/Compatible.antt =====
-- setMACCommands: the blocks that it keeps, and what it does with them.
use chirpstack_network_serve.Prelude.{
  ℕ, ◌≤◌, ◌≡◌, refl, Bool, true, false, List, [], ◌∷◌, arith, leb, ◌==◌, if◌then◌else◌, All,
  All-mono, ok, leb→le,
}
use chirpstack_network_serve.Lorawan.Cid
use chirpstack_network_serve.SessionData.{DeviceSession}
use chirpstack_network_serve.MacCommand.Block.{Block, error_count}
use chirpstack_network_serve.Downlink.Requests.{Config}
use chirpstack_network_serve.Downlink.Filter.{
  seen, without, filter_incompatible_mac_commands, external_blocks, within_error_count,
  select_mac_commands, Redis, set_pending, delete_queue_item, QueueEffect, mark_pending,
  set_mac_commands,
}

seen-without :
    (c d : ℕ) (bs : List Block) → seen c (without d bs) ≡ (if c == d then false else seen c bs)
unfolding without
seen-without c d [] = ground arith
seen-without c d (b ∷ bs) = ground (arith, seen-without c d bs)

without-unseen : (c : ℕ) (bs : List Block) → seen c bs ≡ false → without c bs ≡ bs
unfolding without
without-unseen c [] h = refl
without-unseen c (b ∷ bs) h = ground (arith, without-unseen c bs)

-- The filter has one effect: where a NewChannelReq block stands in the list, the LinkADRReq blocks
-- are cut out, and otherwise the list stays as it is.
pub filter_incompatible_mac_commands_lem :
    (bs : List Block)
    → filter_incompatible_mac_commands bs
      ≡ (if seen Cid.new_channel bs then without Cid.link_adr bs else bs)
unfolding filter_incompatible_mac_commands
filter_incompatible_mac_commands_lem bs =
    ground (arith, seen-without Cid.link_adr Cid.link_adr bs, without-unseen Cid.new_channel bs)

-- A block that may be sent: its errors are within the limit, and it is external if the network
-- server's own commands are disabled.
abbrev pub IsSendable : Config → DeviceSession → Block → Type 0
IsSendable conf ds b =
    (error_count ds b.cid ≤ conf.max_mac_command_error_count)
    × (conf.disable_mac_commands ≡ true → b.external ≡ true)

-- A loop that keeps an element where a test holds.
All-keep :
    (P : Block → Type 0) (c : Bool) (x : Block) (xs : List Block)
    → (c ≡ true → P x)
    → All P xs
    → All P (if c then x ∷ xs else xs)
All-keep P true x xs h a = (h refl, a)
All-keep P false x xs h a = a

All-if :
    (P : Block → Type 0) (c : Bool) (xs ys : List Block)
    → (c ≡ true → All P xs)
    → (c ≡ false → All P ys)
    → All P (if c then xs else ys)
All-if P true xs ys h k = h refl
All-if P false xs ys h k = k refl

All-without : (P : Block → Type 0) (c : ℕ) (bs : List Block) → All P bs → All P (without c bs)
unfolding without
All-without P c [] a = tt
All-without P c (b ∷ bs) a =
    All-if P (b.cid == c) (without c bs) (b ∷ without c bs) (λ e. All-without P c bs a.1)
      (λ e. (a.0, All-without P c bs a.1))

external_blocks-external : (bs : List Block) → All (λ b. b.external ≡ true) (external_blocks bs)
unfolding external_blocks
external_blocks-external [] = tt
external_blocks-external (b ∷ bs) =
    All-keep (λ b. b.external ≡ true) b.external b (external_blocks bs) (λ e. e)
      (external_blocks-external bs)

within_error_count-All :
    (P : Block → Type 0) (limit : ℕ) (ds : DeviceSession) (bs : List Block)
    → All P bs
    → All (λ b. (error_count ds b.cid ≤ limit) × P b) (within_error_count limit ds bs)
unfolding within_error_count
within_error_count-All P limit ds [] a = tt
within_error_count-All P limit ds (b ∷ bs) a =
    All-keep (λ b. (error_count ds b.cid ≤ limit) × P b) (leb (error_count ds b.cid) limit) b
      (within_error_count limit ds bs) (λ e. (leb→le (error_count ds b.cid) limit e, a.0))
      (within_error_count-All P limit ds bs a.1)

All-true : (P : Block → Type 0) (bs : List Block) → ((b : Block) → P b) → All P bs
All-true P [] h = tt
All-true P (b ∷ bs) h = (h b, All-true P bs h)

filter_incompatible_mac_commands-All :
    (P : Block → Type 0) (bs : List Block) → All P bs → All P (filter_incompatible_mac_commands bs)
filter_incompatible_mac_commands-All P bs a = rw (filter_incompatible_mac_commands_lem bs) (
    All-if P (seen Cid.new_channel bs) (without Cid.link_adr bs) bs
      (λ e. All-without P Cid.link_adr bs a) (λ e. a))

filter_incompatible_mac_commands-not_both :
    (bs : List Block)
    → ¬ (
        (seen Cid.new_channel (filter_incompatible_mac_commands bs) ≡ true)
        × (seen Cid.link_adr (filter_incompatible_mac_commands bs) ≡ true))
filter_incompatible_mac_commands-not_both bs h = ground (
  arith,
  filter_incompatible_mac_commands_lem bs,
  seen-without Cid.link_adr Cid.link_adr bs,
  seen-without Cid.new_channel Cid.link_adr bs,
)

-- Each block of a downlink has an error count within the limit, and is external where the network
-- server's own commands are disabled; and the blocks never hold both a NewChannelReq and a
-- LinkADRReq.
pub select_mac_commands_lem :
    (conf : Config) (ds : DeviceSession) (bs : List Block)
    → All (IsSendable conf ds) (select_mac_commands conf ds bs)
      × ¬ (
          (seen Cid.new_channel (select_mac_commands conf ds bs) ≡ true)
          × (seen Cid.link_adr (select_mac_commands conf ds bs) ≡ true))
unfolding select_mac_commands
select_mac_commands_lem conf ds bs =
    let own : List Block = if conf.disable_mac_commands then external_blocks bs else bs in
    let own_all : All (λ b. conf.disable_mac_commands ≡ true → b.external ≡ true) own =
      All-if (λ b. conf.disable_mac_commands ≡ true → b.external ≡ true) conf.disable_mac_commands
        (external_blocks bs) bs
        (λ e. All-mono (external_blocks bs) (λ b x _. x) (external_blocks-external bs))
        (λ e.
          All-true (λ b. conf.disable_mac_commands ≡ true → b.external ≡ true) bs
            (λ b k. absurd cc)) in
    let kept : List Block = within_error_count conf.max_mac_command_error_count ds own in
    (
      filter_incompatible_mac_commands-All (IsSendable conf ds) kept (
          within_error_count-All (λ b. conf.disable_mac_commands ≡ true → b.external ≡ true)
            conf.max_mac_command_error_count ds own own_all),
      filter_incompatible_mac_commands-not_both kept,
    )

abbrev pub effects_of : List Block → List QueueEffect
effects_of [] = []
effects_of (b ∷ bs) =
    if b.external
    then set_pending b ∷ delete_queue_item b ∷ effects_of bs
    else set_pending b ∷ effects_of bs

mark_pending-effects :
    (redis : Redis) (bs : List Block)
    → ((b : Block) → redis.set_pending_ok b ≡ true)
    → ((b : Block) → redis.delete_ok b ≡ true)
    → mark_pending redis bs ≡ (effects_of bs, ok tt)
unfolding mark_pending
mark_pending-effects redis [] p d = refl
mark_pending-effects redis (b ∷ bs) p d =
    ground (arith, mark_pending-effects redis bs p d, p b, d b)

-- Where Redis fails no call, every block that is sent is set pending, in the order of sending, and
-- the external ones are deleted from the queue.
pub set_mac_commands-effects :
    (conf : Config) (redis : Redis) (ds : DeviceSession) (bs : List Block)
    → ((b : Block) → redis.set_pending_ok b ≡ true)
    → ((b : Block) → redis.delete_ok b ≡ true)
    → (set_mac_commands conf redis ds bs).1
      ≡ (effects_of (set_mac_commands conf redis ds bs).0, ok tt)
unfolding set_mac_commands
set_mac_commands-effects conf redis ds bs p d =
    mark_pending-effects redis (select_mac_commands conf ds bs) p d
