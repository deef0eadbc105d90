-- ===== src/Tests/Uplinks.antt =====
-- Examples for Uplink/Commands and Downlink/AdrChange.
use chirpstack_network_serve.Prelude.{
  ok, ℕ, zero, suc, ◌*◌, ◌/◌, ◌+◌, ◌<◌, ◌≡◌, refl, true, false, Option, none, some, List, [], ◌∷◌,
  ltb, ◌==◌, if◌then◌else◌, arith, Distinct, contains, get_or,
}
use chirpstack_network_serve.Prelude.Int.{ℤ, pos, negsuc}
use chirpstack_network_serve.Lorawan.{link_adr_req, MacCommand, LinkAdrReq, no_payload}
use chirpstack_network_serve.Lorawan.Cid
use chirpstack_network_serve.Lorawan.Band.{Band}
use chirpstack_network_serve.AdrTypes.{HandleRequest, HandleResponse}
use chirpstack_network_serve.MacCommand.Block.{Block, one_command}
use chirpstack_network_serve.Uplink.Commands.{add_command, group_commands, Calls}
use chirpstack_network_serve.Uplink.Commands.Grouping.{
  with_cid, commands_with, cids, group_commands_lem,
}
use chirpstack_network_serve.Downlink.AdrChange.{
  last_tx_power_index, tx_power_fuel, new_link_adr_req, apply_response,
}
use chirpstack_network_serve.Downlink.AdrChange.Carried.{carries, apply_response-carries}
use chirpstack_network_serve.Downlink.AdrChange.Power.{IsLast, last_tx_power_index-IsLast}
use chirpstack_network_serve.Downlink.AdrChange.Mask.{leading, new_link_adr_req_lem}
use chirpstack_network_serve.Tests.Sample.{sample_band}

abbrev command : ℕ → MacCommand
command c = record { cid = c; payload = no_payload }

-- An RXTimingSetupAns between two proprietary commands with one identifier.
abbrev frame : List (Option MacCommand)
frame = some (command 129) ∷ some (command Cid.rx_timing_setup) ∷ some (command 129) ∷ []

abbrev grouped : List Block
grouped =
    record { cid = 129; external = false; mac_commands = command 129 ∷ command 129 ∷ [] }
    ∷ record {
      cid = Cid.rx_timing_setup;
      external = false;
      mac_commands = command Cid.rx_timing_setup ∷ [];
    }
    ∷ []

frame-grouped : group_commands [] frame ≡ some grouped
unfolding group_commands add_command
frame-grouped = refl

group_commands_lem_example :
    Distinct (cids grouped) × ((c : ℕ) → commands_with c grouped ≡ with_cid c frame)
group_commands_lem_example = group_commands_lem frame grouped frame-grouped

abbrev disabled : Calls
disabled = record {
  disable_mac_commands = true;
  get_pending = λ c. some none;
  marshal = λ cmd. some (cmd.cid ∷ []);
}

-- Three powers, the last two below the first.
abbrev power_offset : ℕ → Option ℤ
power_offset i = if i == 0 then some (pos 0) else if ltb i 3 then some (negsuc 1) else none

abbrev power_band : Band LinkAdrReq
power_band = record sample_band { get_tx_power_offset = power_offset }

power_offset-known : (j : ℕ) → j < 3 → (o : ℤ) × (power_offset j ≡ some o)
power_offset-known zero h = (pos 0, refl)
power_offset-known (suc zero) h = (negsuc 1, refl)
power_offset-known (suc (suc zero)) h = (negsuc 1, refl)
power_offset-known (suc (suc (suc j))) h = absurd (omega arith)

last_tx_power_index-IsLast_example :
    (m : ℕ) × (last_tx_power_index power_band tx_power_fuel 0 0 ≡ some m)
    × IsLast power_band 0 3 0 m
last_tx_power_index-IsLast_example =
    last_tx_power_index-IsLast power_band 3 power_offset-known refl (omega arith)

abbrev answer : HandleResponse
answer = record { dr = 5; tx_power_index = 1; nb_trans = 1 }

-- Channel 9 of the second group of 16.

new_link_adr_req_lem_example :
    ((new_link_adr_req answer (24 ∷ 25 ∷ 64 ∷ [])).ch_mask_cntl ≡ 24 / 16)
    × (get_or (new_link_adr_req answer (24 ∷ 25 ∷ 64 ∷ [])).ch_mask 9 false
        ≡ contains (24 ∷ leading (24 / 16) (25 ∷ 64 ∷ [])) (16 * (24 / 16) + 9))
new_link_adr_req_lem_example = new_link_adr_req_lem answer 24 (25 ∷ 64 ∷ []) 9 (omega arith)

abbrev asked : HandleRequest
asked = record {
  adr = true;
  dr = 0;
  tx_power_index = 0;
  nb_trans = 1;
  max_tx_power_index = 7;
  required_snr_for_dr = 980;
  installation_margin = 1010;
  min_dr = 0;
  max_dr = 5;
  uplink_history = [];
}

-- A pending LinkADRReq block, with the data-rate 0, and after it.
abbrev pending_req : ℕ → ℕ → LinkAdrReq
pending_req dr power = record {
  data_rate = dr;
  tx_power = power;
  ch_mask = [];
  ch_mask_cntl = 0;
  nb_rep = 1;
}

abbrev pending_blocks : ℕ → ℕ → List Block
pending_blocks dr power = one_command Cid.link_adr (link_adr_req (pending_req dr power)) ∷ []

answer-applied : apply_response asked answer (0 ∷ []) (pending_blocks 0 0) ≡ ok (pending_blocks 5 1)
unfolding apply_response
answer-applied = refl

apply_response-carries_example : carries answer (pending_blocks 5 1) ≡ true
apply_response-carries_example =
    apply_response-carries asked answer (0 ∷ []) (pending_blocks 0 0) (pending_blocks 5 1) refl
      answer-applied
