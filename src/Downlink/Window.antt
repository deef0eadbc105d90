-- ===== src/Downlink/Window.antt =====
-- The receive-windows of a downlink: preferRX2DR to setTXInfoForClassB of
-- internal/downlink/data/data.go, and SetDownlinkTXInfoDataRate of internal/helpers/helpers.go.
-- Durations are nanoseconds; the conversions of a transmission power to int32 are left out.
pub mod Order
use chirpstack_network_serve.Prelude.{
  ℕ, ◌+◌, ◌-◌, ◌*◌, ◌/◌, ◌%◌, Bool, true, false, not, ◌&&◌, ◌||◌, Option, none, some, List, [], ◌∷◌,
  ◌++◌, Result, ok, err, ◌>>=◌, ltb, ◌==◌, if◌then◌else◌, u8, u32,
}
use chirpstack_network_serve.Prelude.Int.{ℤ, pos, negsuc}
use chirpstack_network_serve.Gps.{second}
use chirpstack_network_serve.Float.{FloatOps}
use chirpstack_network_serve.Lorawan.Band.{DownlinkBand, DataRate, Modulation, lora, fsk, lr_fhss}
use chirpstack_network_serve.Gateway.{
  TxInfo, FrameItem, Timing, immediately, delay, gps_epoch, ModulationInfo, no_modulation,
  lora_modulation, fsk_modulation,
}
use chirpstack_network_serve.Profile.{DeviceProfile}
use chirpstack_network_serve.SessionData.{DeviceSession}
use chirpstack_network_serve.MacCommand.Inform.{required_snr}
use chirpstack_network_serve.Downlink.Payload.{Opportunity}
use chirpstack_network_serve.Downlink.Select.{DeviceGatewayRxInfo}

pub data WindowError : Type 0 where
  rx1_data_rate data_rate modulation rx1_frequency max_payload_size ping_slot_frequency :
      WindowError

-- The variables of the package that Setup sets from the configuration.
pub record WindowConfig : Type 0 where
  pub rx2_frequency : ℕ
  pub rx2_dr : ℕ
  pub rx1_dr_offset : ℕ
  pub rx1_delay : ℕ
  pub rx_window : ℕ
  pub rx2_prefer_on_rx1_dr_lt : ℕ
  pub rx2_prefer_on_link_budget : Bool
  pub downlink_tx_power : ℤ

-- The band, the floats, and CalculateLinkBudget of the LoRaWAN library for a bandwidth, a noise
-- figure, a required SNR and a power, with what the functions read of the context.
pub record WindowEnv : Type 0 where
  pub band : DownlinkBand
  pub float : FloatOps
  pub calculate_link_budget : ℕ → ℕ → ℕ → ℤ → ℕ
  pub config : WindowConfig
  pub session : DeviceSession
  pub profile : DeviceProfile
  pub gateway : DeviceGatewayRxInfo
  pub uplink_frequency : ℕ
  pub immediately : Bool

abbrev pub or_error : {A : Type 0} → WindowError → Option A → Result WindowError A
or_error e none = err e
or_error e (some a) = ok a

-- SetDownlinkTXInfoDataRate: the modulation of a data-rate, with the code-rate 4/5.
unfoldable pub modulation_info : DownlinkBand → ℕ → Result WindowError ModulationInfo
modulation_info band dr = do
  d ← or_error data_rate (band.get_data_rate dr)
  elim d.modulation [
    | lora ↦ ok (lora_modulation (u32 d.spread_factor) (u32 d.bandwidth) "4/5" true)
    | fsk ↦ ok (fsk_modulation (u32 d.bit_rate) (u32 (d.bit_rate / 2)))
    | lr_fhss ↦ err modulation
  ]

-- The device does not have the network-server's RX2 parameters yet.
unfoldable pub rx2_out_of_date : WindowEnv → Bool
rx2_out_of_date e =
    not (e.session.rx2_frequency == e.config.rx2_frequency)
    || not (e.session.rx2_dr == u8 e.config.rx2_dr)
    || not (e.session.rx1_dr_offset == u8 e.config.rx1_dr_offset)
    || not (e.session.rx_delay == u8 e.config.rx1_delay)

abbrev pub rx1_dr : WindowEnv → Result WindowError ℕ
rx1_dr e =
    or_error rx1_data_rate (e.band.get_rx1_data_rate_index e.session.dr e.session.rx1_dr_offset)

-- preferRX2DR
unfoldable pub prefer_rx2_dr : WindowEnv → Result WindowError Bool
prefer_rx2_dr e =
    if rx2_out_of_date e
    then ok false
    else do dr ← rx1_dr e; ok (ltb dr e.config.rx2_prefer_on_rx1_dr_lt)

abbrev is_lora : DataRate → Bool
is_lora d = elim d.modulation [ lora ↦ true | _ ↦ false ]

-- The configured power, unless it is -1.
abbrev pub tx_power : WindowEnv → ℕ → ℤ
tx_power e frequency = elim e.config.downlink_tx_power [
  | negsuc n ↦ if n == 0 then e.band.get_downlink_tx_power frequency else negsuc n
  | pos n ↦ pos n
]

abbrev required : FloatOps → ℕ → ℕ
required f sf = elim (required_snr f sf) [ none ↦ f.of_ℤ (pos 0) | some r ↦ r ]

abbrev link_budget : WindowEnv → DataRate → ℤ → ℕ
link_budget e d power =
    e.calculate_link_budget (d.bandwidth * 1000) 6 (required e.float d.spread_factor) power

-- Whether the link budget of RX2 is larger, for two LoRa data-rates.
abbrev larger_link_budget : WindowEnv → DataRate → DataRate → ℕ → Bool
larger_link_budget e d1 d2 frequency =
    e.float.lt (link_budget e d1 (tx_power e frequency))
      (link_budget e d2 (tx_power e e.config.rx2_frequency))

abbrev by_link_budget : WindowEnv → DataRate → DataRate → Result WindowError Bool
by_link_budget e d1 d2 = do
  frequency ←
      or_error rx1_frequency (e.band.get_rx1_frequency_for_uplink_frequency e.uplink_frequency)
  ok (larger_link_budget e d1 d2 frequency)

abbrev compare_link_budget : WindowEnv → Result WindowError Bool
compare_link_budget e = do
  dr ← rx1_dr e
  d1 ← or_error data_rate (e.band.get_data_rate dr)
  d2 ← or_error data_rate (e.band.get_data_rate e.session.rx2_dr)
  (if not (is_lora d1) || not (is_lora d2) then ok false else by_link_budget e d1 d2)

-- preferRX2LinkBudget
unfoldable pub prefer_rx2_link_budget : WindowEnv → Result WindowError Bool
prefer_rx2_link_budget e = if rx2_out_of_date e then ok false else compare_link_budget e

-- A downlink of the gateway on the frequency, with the data-rate, for which the payload has the
-- band's largest size.
unfoldable pub opportunity : WindowEnv → ℕ → ℕ → Option Timing → Result WindowError Opportunity
unfolding modulation_info
opportunity e frequency dr timing = do
  info ← modulation_info e.band dr
  size ←
      or_error max_payload_size
        (e.band.get_max_payload_size e.profile.mac_version e.profile.reg_params_revision dr)
  let tx_info : TxInfo = record {
    board = e.gateway.board;
    antenna = e.gateway.antenna;
    context = e.gateway.context;
    frequency = frequency;
    power = tx_power e frequency;
    modulation_info = info;
    timing = timing;
  }
  ok (record {
    frame_item = record { phy_payload = []; tx_info = tx_info };
    remaining_payload_size = size;
  })

abbrev pub rx1_delay_of : WindowEnv → ℕ
rx1_delay_of e =
    if ltb 0 e.session.rx_delay then e.session.rx_delay * second else e.band.receive_delay1

abbrev pub rx2_delay_of : WindowEnv → ℕ
rx2_delay_of e =
    if ltb 0 e.session.rx_delay then e.session.rx_delay * second + second else e.band.receive_delay2

-- setTXInfoForRX1: the opportunity that it appends.
unfoldable pub rx1_opportunity : WindowEnv → Result WindowError Opportunity
rx1_opportunity e = do
  dr ← rx1_dr e
  info ← modulation_info e.band dr
  frequency ←
      or_error rx1_frequency (e.band.get_rx1_frequency_for_uplink_frequency e.uplink_frequency)
  opportunity e frequency dr (some (delay (rx1_delay_of e)))

-- setTXInfoForRX2: the opportunity that it appends.
unfoldable pub rx2_opportunity : WindowEnv → Result WindowError Opportunity
rx2_opportunity e =
    opportunity e (u32 e.session.rx2_frequency) e.session.rx2_dr
      (some (if e.immediately then immediately else delay (rx2_delay_of e)))

-- setTXInfoForClassB: the opportunity that it appends, whose timing is that of the queue's item.
unfoldable pub class_b_opportunity : WindowEnv → Result WindowError Opportunity
class_b_opportunity e =
    opportunity e (u32 e.session.ping_slot_frequency) e.session.ping_slot_dr none

abbrev append_window :
    Result WindowError Opportunity → List Opportunity → Result WindowError (List Opportunity)
append_window r os = do o ← r; ok (os ++ o ∷ [])

abbrev or_by_budget : WindowEnv → Bool → Result WindowError Bool
or_by_budget e by_dr = do by_budget ← prefer_rx2_link_budget e; ok (by_budget || by_dr)

-- Whether RX2 is preferred over RX1.
unfoldable pub prefer_rx2 : WindowEnv → Result WindowError Bool
prefer_rx2 e = do
  by_dr ← prefer_rx2_dr e
  (if e.config.rx2_prefer_on_link_budget then or_by_budget e by_dr else ok by_dr)

abbrev rx2_rx1 : WindowEnv → List Opportunity → Result WindowError (List Opportunity)
rx2_rx1 e os = do
  with_rx2 ← append_window (rx2_opportunity e) os
  append_window (rx1_opportunity e) with_rx2

abbrev rx1_rx2 : WindowEnv → List Opportunity → Result WindowError (List Opportunity)
rx1_rx2 e os = do
  let window = e.config.rx_window
  with_rx1 ← (if window == 0 || window == 1 then append_window (rx1_opportunity e) os else ok os)
  (if window == 0 || window == 2 then append_window (rx2_opportunity e) with_rx1 else ok with_rx1)

-- setDataTXInfo
unfoldable pub set_data_tx_info :
    WindowEnv → List Opportunity → Result WindowError (List Opportunity)
set_data_tx_info e os = do
  prefer ← prefer_rx2 e
  (if prefer && e.config.rx_window == 0 then rx2_rx1 e os else rx1_rx2 e os)

-- The opportunity at the emission time of a Class-B item; without a frequency of its own, on the
-- one of the ping-slot in the beacon period.
abbrev at_emission :
    (ℕ → ℕ → Option ℕ) → DeviceSession → ℕ → Opportunity → Result WindowError Opportunity
at_emission get_ping_slot_frequency ds emit o =
    let tx_info = record o.frame_item.tx_info { timing = some (gps_epoch emit) } in
    if ds.ping_slot_frequency == 0
    then elim (get_ping_slot_frequency ds.dev_addr (emit - emit % (128 * second))) [
      | none ↦ err ping_slot_frequency
      | some f ↦ ok (record o {
        frame_item = record o.frame_item { tx_info = record tx_info { frequency = u32 f } };
      })
    ]
    else ok (record o { frame_item = record o.frame_item { tx_info = tx_info } })

-- The update of the opportunity in getNextDeviceQueueItem, which is not for an answer to an uplink:
-- GetPingSlotFrequency of the band, whether there is an uplink, and the item's emission time.
unfoldable pub set_class_b_timing :
    (ℕ → ℕ → Option ℕ)
    → Bool
    → DeviceSession
    → Option ℕ
    → List Opportunity
    → Result WindowError (List Opportunity)
set_class_b_timing get_ping_slot_frequency false ds (some emit) (o ∷ []) = do
  u ← at_emission get_ping_slot_frequency ds emit o
  ok (u ∷ [])
set_class_b_timing get_ping_slot_frequency has_uplink ds emit os = ok os
