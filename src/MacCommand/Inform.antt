-- ===== src/MacCommand/Inform.antt =====
-- The commands that ask or tell: link_check.go, rekey.go, reset.go, device_mode_ind.go,
-- pingslot_info.go, dev_status.go and device_time.go of internal/maccommand.
use chirpstack_network_serve.Prelude.{
  ℕ, ◌+◌, ◌-◌, ◌%◌, ◌^◌, Bool, true, false, not, ◌&&◌, ◌||◌, Option, none, some, List, [], ◌∷◌, ok,
  err, u8, ltb, ◌==◌, if◌then◌else◌, length,
}
use chirpstack_network_serve.Prelude.Int.{ℤ, pos, negsuc, pos_part}
use chirpstack_network_serve.Float.{FloatOps}
use chirpstack_network_serve.Gps
use chirpstack_network_serve.Lorawan.{
  Payload, no_payload, DeviceModeClass, class_a, class_c, reserved, link_check_ans, rekey_ind,
  rekey_conf, reset_ind, reset_conf, device_mode_ind, device_mode_conf, ping_slot_info_req,
  dev_status_ans, device_time_ans,
}
use chirpstack_network_serve.Lorawan.Cid
use chirpstack_network_serve.Lorawan.Band.{Modulation, lora}
use chirpstack_network_serve.SessionData.{DeviceSession}
use chirpstack_network_serve.Session.Boot.{reset_to_boot_parameters}
use chirpstack_network_serve.Device.{
  mode_a, mode_c, RxInfo, RxPacket, SetDeviceStatus, Effect, update_device_mode, set_device_status,
  Env,
}
use chirpstack_network_serve.MacCommand.Block.{
  Block, Error, Handled, one_command, wrong_count, unexpected_payload, no_rx_info,
  unsupported_modulation, no_modulation_info, unknown_sf, device_error, unexpected_mode,
}

-- A check that the block holds exactly one command, whose payload the handler then reads.
abbrev single : {A : Type 0} → Block → (Error → A) → (Payload → A) → A
single block failed f = elim block.mac_commands [
  | [] ↦ failed (wrong_count 0)
  | a ∷ [] ↦ f a.payload
  | a ∷ b ∷ r ↦ failed (wrong_count (length (a ∷ b ∷ r)))
]

-- SpreadFactorToRequiredSNRTable of internal/config/config.go, in tenths of a dB below 0
unfoldable pub required_snr : FloatOps → ℕ → Option ℕ
required_snr f sf =
    if sf == 6
    then some (f.of_tenths (negsuc 49))
    else if sf == 7
    then some (f.of_tenths (negsuc 74))
    else if sf == 8
    then some (f.of_tenths (negsuc 99))
    else if sf == 9
    then some (f.of_tenths (negsuc 124))
    else if sf == 10
    then some (f.of_tenths (negsuc 149))
    else if sf == 11
    then some (f.of_tenths (negsuc 174))
    else if sf == 12
    then some (f.of_tenths (negsuc 199))
    else none

abbrev is_lora : Modulation → Bool
is_lora lora = true
is_lora _ = false

-- The margin over the required SNR, at least 0 and cut to a byte.
abbrev link_margin : FloatOps → ℕ → ℕ → ℕ
link_margin f snr required =
    let margin = f.sub snr required in
    if f.lt margin (f.of_ℤ (pos 0)) then 0 else u8 (pos_part (f.to_ℤ margin))

-- handleLinkCheckReq
unfoldable pub handle_link_check_req : FloatOps → DeviceSession → RxPacket → Handled
unfolding required_snr
handle_link_check_req f ds rx = elim rx.rx_info_set [
  | [] ↦ (ds, err no_rx_info)
  | info ∷ infos ↦
      if not (is_lora rx.modulation)
      then (ds, err unsupported_modulation)
      else elim rx.spreading_factor [
        | none ↦ (ds, err no_modulation_info)
        | some sf ↦ elim (required_snr f sf) [
          | none ↦ (ds, err (unknown_sf sf))
          | some required ↦ (
            ds,
            ok (
                one_command Cid.link_check (
                  link_check_ans (link_margin f info.lora_snr required)
                    (u8 (length (info ∷ infos))))
                ∷ []),
          )
        ]
      ]
]

-- servLoRaWANVersionMinor
abbrev pub serv_lorawan_version_minor : ℕ
serv_lorawan_version_minor = 1

abbrev pub version_minor : ℕ → ℕ
version_minor dev_minor =
    if ltb dev_minor serv_lorawan_version_minor then dev_minor else serv_lorawan_version_minor

abbrev rekey : DeviceSession → Payload → Handled
rekey ds (rekey_ind minor) =
    (ds, ok (one_command Cid.rekey (rekey_conf (version_minor minor)) ∷ []))
rekey ds _ = (ds, err unexpected_payload)

-- handleRekeyInd
unfoldable pub handle_rekey_ind : DeviceSession → Block → Handled
handle_rekey_ind ds block = single block (λ e. (ds, err e)) (rekey ds)

abbrev reset : Env → DeviceSession → Payload → Handled
reset env ds (reset_ind minor) = (
  reset_to_boot_parameters env.band ds env.device_profile,
  ok (one_command Cid.reset (reset_conf (version_minor minor)) ∷ []),
)
reset env ds _ = (ds, err unexpected_payload)

-- handleResetInd
unfoldable pub handle_reset_ind : Env → DeviceSession → Block → Handled
handle_reset_ind env ds block = single block (λ e. (ds, err e)) (reset env ds)

abbrev ping_slot_info : DeviceSession → Payload → Handled
ping_slot_info ds (ping_slot_info_req periodicity) =
    -- the shift count is a uint8, and `1 <<` one that is too large is 0
    (
      record ds { ping_slot_nb = 2 ^ u8 (7 + 256 - periodicity) % 2 ^ 64 },
      ok (one_command Cid.ping_slot_info no_payload ∷ []),
    )
ping_slot_info ds _ = (ds, err unexpected_payload)

-- handlePingSlotInfoReq
unfoldable pub handle_ping_slot_info_req : DeviceSession → Block → Handled
handle_ping_slot_info_req ds block = single block (λ e. (ds, err e)) (ping_slot_info ds)

-- The last assignments of the loop to timeSinceGPSEpoch and timeField.
abbrev times_of : ℕ → Option ℕ → List RxInfo → ℕ × Option ℕ
times_of since time [] = (since, time)
times_of since time (info ∷ infos) = elim info.time_since_gps_epoch [
  | some s ↦ times_of s time infos
  | none ↦ elim info.time [ some t ↦ times_of since t infos | none ↦ times_of since time infos ]
]

-- The fallback on the time field, and on the current time.
abbrev device_time : ℕ → ℕ → Option ℕ → ℕ
device_time now since time =
    if since == 0
    then elim time [ none ↦ Gps.time_since_gps_epoch now | some t ↦ Gps.time_since_gps_epoch t ]
    else since

-- handleDeviceTimeReq
unfoldable pub handle_device_time_req : ℕ → DeviceSession → RxPacket → Handled
handle_device_time_req now ds rx = elim rx.rx_info_set [
  | [] ↦ (ds, err no_rx_info)
  | info ∷ infos ↦
      let times = times_of 0 none (info ∷ infos) in
      (
        ds,
        ok (one_command Cid.device_time (device_time_ans (device_time now times.0 times.1)) ∷ []),
      )
]

-- UpdateDevice, and the answer.
abbrev mode_updated : Env → DeviceSession → DeviceModeClass → Effect → Handled × List Effect
mode_updated env ds c effect =
    if env.update_device_ok
    then ((ds, ok (one_command Cid.device_mode (device_mode_conf c) ∷ [])), effect ∷ [])
    else ((ds, err device_error), [])

-- The mode of the device that is stored, and the answer.
abbrev device_mode : Env → DeviceSession → Payload → Handled × List Effect
device_mode env ds (device_mode_ind c) =
    if not env.get_device_ok then ((ds, err device_error), []) else elim c [
      | reserved n ↦ ((ds, err (unexpected_mode n)), [])
      | class_a ↦ mode_updated env ds class_a (update_device_mode mode_a)
      | class_c ↦ mode_updated env ds class_c (update_device_mode mode_c)
    ]
device_mode env ds _ = ((ds, err unexpected_payload), [])

-- handleDeviceModeInd
unfoldable pub handle_device_mode_ind : Env → DeviceSession → Block → Handled × List Effect
handle_device_mode_ind env ds block = single block (λ e. ((ds, err e), [])) (device_mode env ds)

-- The message about the battery and the margin.
unfoldable pub device_status : Env → ℕ → ℤ → SetDeviceStatus
device_status env battery margin = record {
  battery = if sp.report_dev_status_battery then battery else 0;
  battery_level_unavailable = not sp.report_dev_status_battery || battery == 255;
  external_power_source = sp.report_dev_status_battery && battery == 0;
  battery_level =
      if sp.report_dev_status_battery && not (battery == 255) && not (battery == 0)
      then f.mul (f.div (f.of_ℤ (pos battery)) (f.of_ℤ (pos 254))) (f.of_ℤ (pos 100))
      else f.of_ℤ (pos 0);
  margin = if sp.report_dev_status_margin then margin else pos 0;
}
  where
    open env use {service_profile as sp, float as f}

abbrev dev_status : Env → DeviceSession → Payload → Handled × List Effect
dev_status env ds (dev_status_ans battery margin) =
    if not env.service_profile.report_dev_status_battery
      && not env.service_profile.report_dev_status_margin
    then ((ds, ok []), [])
    else ((ds, ok []), set_device_status (device_status env battery margin) ∷ [])
dev_status env ds _ = ((ds, err unexpected_payload), [])

-- handleDevStatusAns
unfoldable pub handle_dev_status_ans : Env → DeviceSession → Block → Handled × List Effect
unfolding device_status
handle_dev_status_ans env ds block = single block (λ e. ((ds, err e), [])) (dev_status env ds)
