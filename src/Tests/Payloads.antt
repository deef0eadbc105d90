-- ===== src/Tests/Payloads.antt =====
-- The examples of the payloads, windows and gateway of a downlink.
use chirpstack_network_serve.Prelude.{
  ℕ, ◌-◌, ◌≡◌, ◌⊎◌, refl, true, false, some, List, [], ◌∷◌, ok, arith, take, ◌==◌,
}
use chirpstack_network_serve.Prelude.Int.{pos, negsuc}
use chirpstack_network_serve.Lorawan.{no_payload}
use chirpstack_network_serve.Lorawan.Band.{DownlinkBand, DataRate}
use chirpstack_network_serve.Gateway.{lora_modulation, delay}
use chirpstack_network_serve.MacCommand.Block.{one_command}
use chirpstack_network_serve.Downlink.Payload.{
  Phy, Encoder, Marshal, PayloadContext, Opportunity, Collected, size, collect, frame, encode,
  set_phy_payload, nothing,
}
use chirpstack_network_serve.Downlink.Payload.Collect.{all_commands, IsCollected, IsPrefix}
use chirpstack_network_serve.Downlink.Payload.Bounds.{IsWithin, set_phy_payload-IsWithin}
use chirpstack_network_serve.Downlink.Payload.Fields.{
  Carries, Announces, frame_commands, set_phy_payload-item, set_phy_payload-commands,
}
use chirpstack_network_serve.Downlink.Select.{
  DeviceGatewayRxInfo, SelectEnv, less, insert_by_signal, by_signal, has_margin, with_margin,
  select_downlink_gateway,
}
use chirpstack_network_serve.Downlink.Select.Sorting.{IsComparable}
use chirpstack_network_serve.Downlink.Select.Chosen.{IsSelected, select_downlink_gateway-IsSelected}
use chirpstack_network_serve.Downlink.Window.{
  WindowEnv, modulation_info, rx2_out_of_date, prefer_rx2, prefer_rx2_dr, opportunity,
  rx1_opportunity, rx2_opportunity, set_data_tx_info,
}
use chirpstack_network_serve.Downlink.Window.Order.{Both, set_data_tx_info-Both}
use chirpstack_network_serve.Session.Boot.{get_mac_version}
use chirpstack_network_serve.MacCommand.Inform.{required_snr}
use chirpstack_network_serve.Tests.Sample.{
  sample_session, sample_device_profile, sample_float, sample_float-IsOrdered, sample_data_rate,
}
use chirpstack_network_serve.Tests.Queues.{queued}
use chirpstack_network_serve.Tests.Acks.{frame_item}

-- Frames that are not encrypted, and marshal to one byte.
abbrev plain : Encoder Phy
plain = record {
  phy_payload = λ p. p;
  encrypt_frm_payload = λ k p. some p;
  encrypt_f_opts = λ k p. some p;
  set_downlink_data_mic = λ v f k p. some p;
  marshal_binary = λ p. some (96 ∷ []);
}

abbrev marshal_cid : Marshal
marshal_cid c = some (c.cid ∷ [])

abbrev payload_context : PayloadContext
payload_context = record {
  session = sample_session;
  mac_commands = one_command 6 no_payload ∷ one_command 8 no_payload ∷ [];
  queue_item = some (queued 2 7);
  more_device_queue_items = true;
  ack = false;
  disable_adr = false;
}

-- Room for both commands and the item of three bytes, with one byte left.
abbrev small : ℕ → Opportunity
small n = record { frame_item = frame_item 0; remaining_payload_size = n }

abbrev small_done : Opportunity
small_done = record { frame_item = frame_item 96; remaining_payload_size = 1 }

small-set : set_phy_payload plain marshal_cid payload_context (small 6) ≡ ok small_done
unfolding set_phy_payload collect size frame encode get_mac_version
small-set = refl

set_phy_payload-IsWithin_example :
    (phy : Phy) × (a b : ℕ) × (encode plain sample_session phy ≡ ok (96 ∷ []))
    × IsWithin marshal_cid 6 phy 1 a b
set_phy_payload-IsWithin_example =
    set_phy_payload-IsWithin plain marshal_cid payload_context (small 6) small_done small-set

set_phy_payload-item_example :
    (phy : Phy) × (encode plain sample_session phy ≡ ok (96 ∷ []))
    × (Carries payload_context (queued 2 7) phy ⊎ Announces payload_context phy)
set_phy_payload-item_example =
    set_phy_payload-item plain marshal_cid payload_context (small 6) small_done (queued 2 7) refl
      small-set

set_phy_payload-commands_example :
    (phy : Phy) × (c : Collected) × (n : ℕ) × (encode plain sample_session phy ≡ ok (96 ∷ []))
    × (frame_commands phy ≡ all_commands (take n payload_context.mac_commands))
    × IsCollected marshal_cid 6 c
    × IsPrefix marshal_cid payload_context.mac_commands (nothing (small 6)) c n
set_phy_payload-commands_example =
    set_phy_payload-commands plain marshal_cid payload_context (small 6) small_done small-set

abbrev downlink_band : DownlinkBand
downlink_band = record {
  get_data_rate = sample_data_rate;
  get_rx1_data_rate_index = λ dr offset. some (dr - offset);
  get_rx1_frequency_for_uplink_frequency = λ f. some f;
  get_downlink_tx_power = λ f. pos 14;
  receive_delay1 = 1000000000;
  receive_delay2 = 2000000000;
  get_max_payload_size = λ v r dr. some 51;
}

abbrev gateway_info : ℕ → ℕ → DeviceGatewayRxInfo
gateway_info id snr = record {
  gateway_id = id;
  rssi = negsuc 99;
  lora_snr = snr;
  antenna = 0;
  board = 0;
  context = [];
}

abbrev window_env : WindowEnv
window_env = record {
  band = downlink_band;
  float = sample_float;
  calculate_link_budget = λ b n s p. b;
  config = record {
    rx2_frequency = 869525000;
    rx2_dr = 0;
    rx1_dr_offset = 0;
    rx1_delay = 1;
    rx_window = 0;
    rx2_prefer_on_rx1_dr_lt = 3;
    rx2_prefer_on_link_budget = false;
    downlink_tx_power = negsuc 0;
  };
  session = sample_session;
  profile = sample_device_profile;
  gateway = gateway_info 1 1005;
  uplink_frequency = 868100000;
  immediately = false;
}

abbrev select_env : SelectEnv
select_env = record { band = downlink_band; float = sample_float; equal = ◌==◌; random = λ n. 0 }

select_env-IsComparable : IsComparable select_env
select_env-IsComparable = record {
  ordered = sample_float-IsOrdered;
  equal_of = λ a b h k. ground arith;
  equal_sym = λ a b h. ground arith;
  equal_not_lt = λ a b h. ground arith;
}

-- The second gateway has the stronger signal.
two_gateways-select :
    select_downlink_gateway select_env 1010 0 (gateway_info 1 1005 ∷ gateway_info 2 1008 ∷ [])
    ≡ ok (gateway_info 2 1008)
unfolding select_downlink_gateway by_signal insert_by_signal less with_margin has_margin
    required_snr
two_gateways-select = refl

select_downlink_gateway-IsSelected_example :
    let infos = gateway_info 1 1005 ∷ gateway_info 2 1008 ∷ [] in
    ((gateway_info 2 1008).antenna ≡ 0)
    × ((dr : DataRate) × (sample_data_rate 0 ≡ some dr)
        × IsSelected select_env 1010 dr infos (gateway_info 2 1008))
select_downlink_gateway-IsSelected_example =
    select_downlink_gateway-IsSelected select_env (λ g. g.antenna ≡ 0) 1010 0
      (gateway_info 1 1005 ∷ gateway_info 2 1008 ∷ []) (gateway_info 2 1008) select_env-IsComparable
      (λ n. omega arith) (refl, (refl, tt)) two_gateways-select

abbrev window : ℕ → ℕ → Opportunity
window f d = record {
  frame_item = record {
    phy_payload = [];
    tx_info = record {
      board = 0;
      antenna = 0;
      context = [];
      frequency = f;
      power = pos 14;
      modulation_info = lora_modulation 12 125 "4/5" true;
      timing = some (delay d);
    };
  };
  remaining_payload_size = 51;
}

-- RX2 is preferred for the slow data-rate of RX1.
abbrev both_windows : List Opportunity
both_windows = window 869525000 2000000000 ∷ window 868100000 1000000000 ∷ []

both_windows-set : set_data_tx_info window_env [] ≡ ok both_windows
unfolding set_data_tx_info prefer_rx2 prefer_rx2_dr rx2_out_of_date rx1_opportunity rx2_opportunity
    opportunity modulation_info
both_windows-set = refl

set_data_tx_info-Both_example : Both window_env both_windows
set_data_tx_info-Both_example =
    set_data_tx_info-Both window_env both_windows refl refl (omega arith) both_windows-set
