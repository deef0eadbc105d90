-- ===== src/Tests/Flows.antt =====
-- Examples for Uplink/Flow.
use chirpstack_network_serve.Prelude.{
  ℕ, ◌+◌, ◌≡◌, refl, true, false, none, some, [], ◌∷◌, ◌==◌, ◌&&◌, arith, u32,
}
use chirpstack_network_serve.SessionData.{DeviceSession}
use chirpstack_network_serve.Session.FCnt.{get_full_f_cnt_up}
use chirpstack_network_serve.Session.History.{append_history, append_uplink_history}
use chirpstack_network_serve.Session.Lookup.{
  MicCheck, found, get_device_session_for_phy_payload, try_counters, check_counter,
}
use chirpstack_network_serve.Uplink.Commands.{Calls}
use chirpstack_network_serve.Uplink.Flow.{
  Setting, set_adr, set_uplink_data_rate, set_beacon_locked, handle_f_opts_mac_commands,
  handle_frm_payload_mac_commands, append_meta_data_to_uplink_history,
  send_frm_payload_to_application_server, application_data, data_payload, sync_uplink_f_cnt,
  run_tasks, saved_session,
}
use chirpstack_network_serve.Uplink.Flow.Saved.{kept, saved_session_lem}
use chirpstack_network_serve.Uplink.Flow.Trace.{
  Accepts, quiet, uplink, IncreasingFrom, Accepts-IncreasingFrom,
}
use chirpstack_network_serve.Tests.Sample
use chirpstack_network_serve.Tests.Sample.{sample_session, sample_env}
use chirpstack_network_serve.Prelude.Int

abbrev nothing_pending : Calls
nothing_pending = record {
  disable_mac_commands = false;
  get_pending = λ c. some none;
  marshal = λ cmd. none;
}

-- A frame without MAC commands.
abbrev setting : ℕ → Setting
setting f = record {
  frame = record {
    f_cnt = f;
    adr = false;
    class_b = false;
    f_port = some 2;
    f_opts = [];
    confirmed = false;
    frm_payload = data_payload (1 ∷ []) ∷ [];
  };
  env = sample_env;
  calls = nothing_pending;
  mode_ok = true;
  queue_ok = true;
}

-- The session with an envelope of the AppSKey that was not sent yet.
abbrev started : DeviceSession
started = record sample_session {
  app_s_key_envelope = some (record { kek_label = "as"; aes_key = 1 });
}

-- What the flow saves for the counter 9, and then for 12.
abbrev first_saved : DeviceSession
first_saved = record sample_session {
  adr = false;
  f_cnt_up = 10;
  uplink_history =
      Sample.uplink 5
      ∷ Sample.uplink 7
      ∷ record (Sample.uplink 9) { max_snr = 1000; max_rssi = Int.pos 0; gateway_count = 0 }
      ∷ [];
}

first-saved : saved_session (setting 9) started ≡ some first_saved
unfolding saved_session run_tasks set_adr set_uplink_data_rate set_beacon_locked
    handle_f_opts_mac_commands handle_frm_payload_mac_commands append_meta_data_to_uplink_history
    append_uplink_history append_history send_frm_payload_to_application_server application_data
    sync_uplink_f_cnt
first-saved = refl

saved_session_lem_example :
    (started.is_disabled ≡ false)
    × (first_saved.f_cnt_up ≡ u32 (9 + 1))
    × (first_saved.app_s_key_envelope ≡ none)
    × (kept first_saved ≡ kept (record started { adr = false }))
saved_session_lem_example = saved_session_lem (setting 9) started first_saved first-saved

abbrev second_saved : DeviceSession
second_saved = record first_saved {
  f_cnt_up = 13;
  uplink_history =
      Sample.uplink 5
      ∷ Sample.uplink 7
      ∷ record (Sample.uplink 9) { max_snr = 1000; max_rssi = Int.pos 0; gateway_count = 0 }
      ∷ record (Sample.uplink 12) { max_snr = 1000; max_rssi = Int.pos 0; gateway_count = 0 }
      ∷ [];
}

second-saved : saved_session (setting 12) first_saved ≡ some second_saved
unfolding saved_session run_tasks set_adr set_uplink_data_rate set_beacon_locked
    handle_f_opts_mac_commands handle_frm_payload_mac_commands append_meta_data_to_uplink_history
    append_uplink_history append_history send_frm_payload_to_application_server application_data
    sync_uplink_f_cnt
second-saved = refl

-- A session of another device that uses the same DevAddr.
abbrev other_session : DeviceSession
other_session = record sample_session { dev_eui = 77 }

-- The frame is the sample session's.
abbrev mic_of : ℕ → MicCheck
mic_of f s n = some (n == f && s.dev_eui == sample_session.dev_eui)

first-found :
    get_device_session_for_phy_payload (mic_of 9) (other_session ∷ started ∷ []) 9 ≡ found 9 started
unfolding get_device_session_for_phy_payload try_counters check_counter get_full_f_cnt_up
first-found = refl

second-found :
    get_device_session_for_phy_payload (mic_of 12) (first_saved ∷ []) 12 ≡ found 12 first_saved
unfolding get_device_session_for_phy_payload try_counters check_counter get_full_f_cnt_up
second-found = refl

two_uplinks : Accepts started (9 ∷ 12 ∷ []) second_saved
two_uplinks =
    uplink (mic_of 9) 9 (other_session ∷ started ∷ []) started (setting 9)
      (ground arith, (λ e. refl, tt)) refl first-found first-saved
      (uplink (mic_of 12) 12 (first_saved ∷ []) first_saved (setting 12) (λ e. refl, tt) refl
        second-found second-saved quiet)

Accepts-IncreasingFrom_example : IncreasingFrom 8 (9 ∷ 12 ∷ [])
Accepts-IncreasingFrom_example =
    Accepts-IncreasingFrom two_uplinks refl (omega arith, (omega arith, tt))
