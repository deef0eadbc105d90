-- ===== src/MacCommand/NewChannel.antt =====
-- RequestNewChannels and handleNewChannelAns of internal/maccommand/new_channel.go.
mod Sorted
pub mod Request
pub mod Keeps
pub mod Progress
use chirpstack_network_serve.Prelude.{
  ℕ, ◌+◌, ◌≡◌, Bool, true, false, ◌&&◌, ◌||◌, Option, none, some, List, [], ◌∷◌, ◌++◌, ok, err, u8,
  u32, ltb, leb, ◌==◌, ◌!=◌, if◌then◌else◌, length, take, contains, map,
}
use chirpstack_network_serve.Prelude.Assoc.{Assoc, lookup, insert}
use chirpstack_network_serve.Lorawan.{
  MacCommand, Payload, NewChannelReq, new_channel_ans, new_channel_req,
}
use chirpstack_network_serve.Lorawan.Cid
use chirpstack_network_serve.Lorawan.Band.{Channel}
use chirpstack_network_serve.SessionData.{DeviceSession}
use chirpstack_network_serve.MacCommand.Block.{
  Block, Handled, commands_of, no_commands, no_pending, answer_count, unexpected_payload,
  increase_error_count, reset_error_count,
}

-- sort.Ints
insert_sorted : ℕ → List ℕ → List ℕ
insert_sorted a [] = a ∷ []
insert_sorted a (x ∷ xs) = let rest = insert_sorted a xs in if leb a x then a ∷ x ∷ xs else x ∷ rest

unfoldable pub sort : List ℕ → List ℕ
unfolding insert_sorted
sort [] = []
sort (x ∷ xs) = insert_sorted x (sort xs)

-- The indices of the channels.
abbrev pub keys : Assoc Channel → List ℕ
keys [] = []
keys ((i, c) ∷ m) = i ∷ keys m

-- A missing channel reads as Go's zero value.
abbrev pub channel_at : Assoc Channel → ℕ → Channel
channel_at m i = elim (lookup i m) [
  | none ↦ record { frequency = 0; min_dr = 0; max_dr = 0 }
  | some c ↦ c
]

-- The channel is missing or configured otherwise.
abbrev pub differs : Option Channel → Channel → Bool
differs none wanted = true
differs (some c) wanted =
    c.frequency != wanted.frequency || c.min_dr != wanted.min_dr || c.max_dr != wanted.max_dr

unfoldable pub request_for : Assoc Channel → ℕ → MacCommand
request_for wanted i = record {
  cid = Cid.new_channel;
  payload = new_channel_req (record {
    ch_index = u8 i;
    freq = u32 (channel_at wanted i).frequency;
    min_dr = u8 (channel_at wanted i).min_dr;
    max_dr = u8 (channel_at wanted i).max_dr;
  });
}

-- The loop over the sorted channel numbers; it collects the channels to request.
unfoldable pub to_change : Assoc Channel → Assoc Channel → List ℕ → List ℕ
to_change current wanted [] = []
to_change current wanted (i ∷ is) =
    let rest = to_change current wanted is in
    if differs (lookup i current) (channel_at wanted i) then i ∷ rest else rest

-- The channel numbers whose requests are sent: out[0:maxChannels] where there are more.
unfoldable pub batch : ℕ → Assoc Channel → Assoc Channel → List ℕ
batch max_channels current wanted =
    let out = to_change current wanted (sort (keys wanted)) in
    if ltb max_channels (length out) then take max_channels out else out

-- The block for the numbers; `nil` where there are none.
abbrev pub block_of : Assoc Channel → List ℕ → Option Block
block_of wanted [] = none
block_of wanted (i ∷ is) = some (record {
  cid = Cid.new_channel;
  external = false;
  mac_commands = map (request_for wanted) (i ∷ is);
})

-- RequestNewChannels
unfoldable pub request_new_channels : ℕ → Assoc Channel → Assoc Channel → Option Block
request_new_channels max_channels current wanted =
    block_of wanted (batch max_channels current wanted)

-- ds.ExtraUplinkChannels[...] = ..., and the channel is enabled if it was not.
unfoldable pub accept_channel : DeviceSession → NewChannelReq → DeviceSession
unfolding reset_error_count
accept_channel ds req =
    let d = reset_error_count Cid.new_channel ds in
    record d {
      extra_uplink_channels =
          insert req.ch_index
            (record { frequency = req.freq; min_dr = req.min_dr; max_dr = req.max_dr })
            ds.extra_uplink_channels;
      enabled_uplink_channels =
          if contains ds.enabled_uplink_channels req.ch_index
          then ds.enabled_uplink_channels
          else ds.enabled_uplink_channels ++ req.ch_index ∷ [];
    }

-- The loop over answers and requests, which stand side by side.
abbrev pub answer_channel : DeviceSession → Payload → Payload → Option DeviceSession
answer_channel ds (new_channel_ans freq_ok dr_ok) (new_channel_req req) =
    some
      (if freq_ok && dr_ok then accept_channel ds req else increase_error_count Cid.new_channel ds)
answer_channel ds _ _ = none

unfoldable pub answer_channels : DeviceSession → List MacCommand → List MacCommand → Handled
answer_channels ds [] _ = (ds, ok [])
answer_channels ds (a ∷ answers) [] = (ds, err unexpected_payload)
answer_channels ds (a ∷ answers) (r ∷ rs) = elim (answer_channel ds a.payload r.payload) [
  | none ↦ (ds, err unexpected_payload)
  | some d ↦ answer_channels d answers rs
]

-- handleNewChannelAns
unfoldable pub handle_new_channel_ans : DeviceSession → Block → Option Block → Handled
handle_new_channel_ans ds block pending =
    if length block.mac_commands == 0
    then (ds, err no_commands)
    else if length (commands_of pending) == 0
    then (ds, err no_pending)
    else if length block.mac_commands == length (commands_of pending)
    then answer_channels ds block.mac_commands (commands_of pending)
    else (ds, err (answer_count (length block.mac_commands) (length (commands_of pending))))
