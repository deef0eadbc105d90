-- ===== src/Tests/Sessions.antt =====
-- Examples for the modules under Session.
use chirpstack_network_serve.Prelude.{
  ◌+◌, ◌-◌, ◌%◌, ◌^◌, ◌≤◌, ◌<◌, ◌≡◌, refl, true, some, [], ◌∷◌, ◌==◌, arith, length,
}
use chirpstack_network_serve.SessionData.{DeviceSession}
use chirpstack_network_serve.Session.FCnt.{
  get_full_f_cnt_up, get_full_f_cnt_up_exact, get_full_f_cnt_up_truncates,
}
use chirpstack_network_serve.Session.Lookup.{
  found, MicCheck, get_device_session_for_phy_payload, try_counters, check_counter,
}
use chirpstack_network_serve.Session.Lookup.Match.{
  FirstAccepted, get_device_session_for_phy_payload-found,
  get_device_session_for_phy_payload-no_replay,
}
use chirpstack_network_serve.Session.History.{
  append_uplink_history, IsHistory, append_uplink_history-IsHistory,
}
use chirpstack_network_serve.Session.Loss.{lost_packets, last_f_cnt, lost_packets-exact}
use chirpstack_network_serve.Session.Boot.{
  reset_to_boot_parameters, ExtraEnabled, reset_to_boot_parameters_lem,
}
use chirpstack_network_serve.Tests.Sample.{
  sample_session, uplink, sample_band, sample_device_profile,
}

get_full_f_cnt_up_exact_example : get_full_f_cnt_up 65536 (65540 % 2 ^ 16) ≡ 65540
get_full_f_cnt_up_exact_example =
    get_full_f_cnt_up_exact 65536 65540 (omega arith) (omega arith) (omega arith)

get_full_f_cnt_up_truncates_example :
    (get_full_f_cnt_up 65541 4 % 2 ^ 16 ≡ 4)
    × (get_full_f_cnt_up 65541 4 < 2 ^ 32)
    × ((get_full_f_cnt_up 65541 4 + 2 ^ 32 + 1 - 65541) % 2 ^ 32 < 2 ^ 16)
get_full_f_cnt_up_truncates_example =
    get_full_f_cnt_up_truncates 65541 4 (omega arith) (omega arith)

-- The MIC is valid for the session's key and the counter 9.
abbrev sample_mic : MicCheck
sample_mic s f = some (f == 9)

sample-found :
    get_device_session_for_phy_payload sample_mic (sample_session ∷ []) 9 ≡ found 9 sample_session
unfolding get_device_session_for_phy_payload try_counters check_counter get_full_f_cnt_up
sample-found = refl

get_device_session_for_phy_payload-found_example :
    FirstAccepted sample_mic 9 (sample_session ∷ []) sample_session 9
get_device_session_for_phy_payload-found_example =
    get_device_session_for_phy_payload-found sample_mic 9 (sample_session ∷ []) sample_session 9
      sample-found

-- Only the counter 65541, whose low 16 bits are 5, has a valid MIC.
abbrev later_mic : MicCheck
later_mic s f = some (f == 65541)

abbrev passed_session : DeviceSession
passed_session = record sample_session { f_cnt_up = 10 }

passed-found :
    get_device_session_for_phy_payload later_mic (passed_session ∷ []) (5 % 2 ^ 16)
    ≡ found 65541 passed_session
unfolding get_device_session_for_phy_payload try_counters check_counter get_full_f_cnt_up
passed-found = refl

get_device_session_for_phy_payload-no_replay_example :
    (later_mic passed_session 65541 ≡ some true) × (5 + 1 < 10) × (5 + 2 ^ 16 ≤ 65541)
get_device_session_for_phy_payload-no_replay_example =
    get_device_session_for_phy_payload-no_replay later_mic (passed_session ∷ []) passed_session
      passed_session 5 65541 (λ e. refl, tt) (omega arith) (omega arith) refl passed-found refl

sample-IsHistory : IsHistory sample_session.uplink_history
sample-IsHistory = record { bounded = omega arith; no_repeat = ground arith }

append_uplink_history-IsHistory_example :
    IsHistory (append_uplink_history sample_session (uplink 8)).uplink_history
append_uplink_history-IsHistory_example =
    append_uplink_history-IsHistory sample_session (uplink 8) sample-IsHistory

lost_packets-exact_example :
    lost_packets (uplink 5 ∷ uplink 7 ∷ uplink 10 ∷ [])
      + length (uplink 5 ∷ uplink 7 ∷ uplink 10 ∷ [])
      + 5
    ≡ last_f_cnt 5 (uplink 7 ∷ uplink 10 ∷ []) + 1
lost_packets-exact_example =
    lost_packets-exact (uplink 5) (uplink 7 ∷ uplink 10 ∷ [])
      (omega arith, (omega arith, omega arith))

reset_to_boot_parameters_lem_example :
    let s = reset_to_boot_parameters sample_band sample_session sample_device_profile in
    ExtraEnabled s.enabled_uplink_channels s.extra_uplink_channels
    × (reset_to_boot_parameters sample_band s sample_device_profile ≡ s)
reset_to_boot_parameters_lem_example =
    reset_to_boot_parameters_lem sample_band sample_session sample_device_profile refl
