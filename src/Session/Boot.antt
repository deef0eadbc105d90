-- ===== src/Session/Boot.antt =====
-- ResetToBootParameters and GetMACVersion of internal/storage/device_session.go.
use text.Mathlib.Text.{starts_with}
use chirpstack_network_serve.Prelude.{
  ℕ, ◌/◌, ◌≡◌, true, false, Option, none, some, List, [], ◌∷◌, ◌++◌, arith, ◌==◌, if◌then◌else◌,
  length, drop, contains, contains-append, u8,
}
use chirpstack_network_serve.Prelude.Assoc.{Assoc, lookup, insert, lookup-insert}
use chirpstack_network_serve.Lorawan.{LinkAdrReq}
use chirpstack_network_serve.Lorawan.Band.{Band, Channel}
use chirpstack_network_serve.Profile.{DeviceProfile}
use chirpstack_network_serve.SessionData.{DeviceSession}

pub data MacVersion : Type 0 where
  lorawan_1_0 lorawan_1_1 : MacVersion

-- GetMACVersion
unfoldable pub get_mac_version : DeviceSession → MacVersion
get_mac_version s = if starts_with s.mac_version "1.1" then lorawan_1_1 else lorawan_1_0

-- The loop over the factory-preset frequencies behind the standard channels: the enabled channels
-- and the extra channels as it goes.
extra_channels : Band LinkAdrReq → List ℕ → List ℕ → Assoc Channel → List ℕ × Assoc Channel
extra_channels band [] enabled extra = (enabled, extra)
extra_channels band (f ∷ fs) enabled extra = elim (band.get_uplink_channel_index f false) [
  | none ↦ extra_channels band fs enabled extra
  | some i ↦ elim (band.get_uplink_channel i) [
    | none ↦ extra_channels band fs (enabled ++ i ∷ []) extra
    | some c ↦ extra_channels band fs (enabled ++ i ∷ []) (insert i c extra)
  ]
]

-- ResetToBootParameters
unfoldable pub reset_to_boot_parameters :
    Band LinkAdrReq → DeviceSession → DeviceProfile → DeviceSession
unfolding extra_channels
reset_to_boot_parameters band s dp =
    if dp.supports_join
    then s
    else let standard = band.get_standard_uplink_channel_indices in
      let channels =
        extra_channels band (drop (length standard) dp.factory_preset_freqs) standard [] in
      record s {
        tx_power_index = 0;
        min_supported_tx_power_index = 0;
        max_supported_tx_power_index = 0;
        extra_uplink_channels = channels.1;
        rx_delay = u8 dp.rx_delay1;
        rx1_dr_offset = u8 dp.rx_dr_offset1;
        rx2_dr = u8 dp.rx_data_rate2;
        rx2_frequency = dp.rx_freq2;
        enabled_uplink_channels = channels.0;
        channel_frequencies = dp.factory_preset_freqs;
        ping_slot_dr = dp.ping_slot_dr;
        ping_slot_frequency = dp.ping_slot_freq;
        nb_trans = 1;
        ping_slot_nb =
            if dp.ping_slot_period == 0 then s.ping_slot_nb else 4096 / dp.ping_slot_period;
      }

-- Every extra channel is enabled.
abbrev pub ExtraEnabled : List ℕ → Assoc Channel → Type 0
ExtraEnabled enabled extra =
    (i : ℕ) (c : Channel) → lookup i extra ≡ some c → contains enabled i ≡ true

ExtraEnabled-append :
    (enabled : List ℕ) (extra : Assoc Channel) (i : ℕ)
    → ExtraEnabled enabled extra
    → ExtraEnabled (enabled ++ i ∷ []) extra
ExtraEnabled-append enabled extra i h j c e =
    ground (arith, contains-append enabled (i ∷ []) j, h j c e)

pub ExtraEnabled-insert :
    (enabled : List ℕ) (extra : Assoc Channel) (i : ℕ) (c : Channel)
    → contains enabled i ≡ true
    → ExtraEnabled enabled extra
    → ExtraEnabled enabled (insert i c extra)
ExtraEnabled-insert enabled extra i c k h j d e = ground (arith, lookup-insert i j c extra, h j d)

ExtraEnabled-empty : (enabled : List ℕ) → ExtraEnabled enabled []
unfolding lookup
ExtraEnabled-empty enabled i c e = cc

contains-snoc : (xs : List ℕ) (i : ℕ) → contains (xs ++ i ∷ []) i ≡ true
contains-snoc xs i = ground (arith, contains-append xs (i ∷ []) i)

module _ (band : Band LinkAdrReq) where
  extra_channels-ExtraEnabled :
      (fs : List ℕ) (enabled : List ℕ) (extra : Assoc Channel)
      → ExtraEnabled enabled extra
      → ExtraEnabled
          (extra_channels band fs enabled extra).0
          (extra_channels band fs enabled extra).1
  unfolding extra_channels
  extra_channels-ExtraEnabled [] enabled extra h = h
  extra_channels-ExtraEnabled (f ∷ fs) enabled extra h =
      elim (band.get_uplink_channel_index f false) as (λ o. ExtraEnabled (found o).0 (found o).1) [
        | none ↦ extra_channels-ExtraEnabled fs enabled extra h
        | some i ↦
            elim (band.get_uplink_channel i)
              as (λ o. ExtraEnabled (channel i o).0 (channel i o).1) [
                | none ↦
                    extra_channels-ExtraEnabled fs (enabled ++ i ∷ []) extra
                      (ExtraEnabled-append _ _ i h)
                | some c ↦ extra_channels-ExtraEnabled fs (enabled ++ i ∷ []) (insert i c extra) (
                    ExtraEnabled-insert _ extra i c (contains-snoc enabled i)
                      (ExtraEnabled-append _ _ i h))
              ]
      ]
    where
      channel : ℕ → Option Channel → List ℕ × Assoc Channel
      channel i o = elim o [
        | none ↦ extra_channels band fs (enabled ++ i ∷ []) extra
        | some c ↦ extra_channels band fs (enabled ++ i ∷ []) (insert i c extra)
      ]

      found : Option ℕ → List ℕ × Assoc Channel
      found o = elim o [
        | none ↦ extra_channels band fs enabled extra
        | some i ↦ channel i (band.get_uplink_channel i)
      ]

  -- A reset of a device that does not support joining leaves every extra channel enabled, and a
  -- second reset changes nothing.
  pub reset_to_boot_parameters_lem :
      (s : DeviceSession) (dp : DeviceProfile)
      → dp.supports_join ≡ false
      → ExtraEnabled
          (reset_to_boot_parameters band s dp).enabled_uplink_channels
          (reset_to_boot_parameters band s dp).extra_uplink_channels
        × (reset_to_boot_parameters band (reset_to_boot_parameters band s dp) dp
            ≡ reset_to_boot_parameters band s dp)
  unfolding reset_to_boot_parameters
  reset_to_boot_parameters_lem s dp h =
      let standard = band.get_standard_uplink_channel_indices in
      rw h (
        extra_channels-ExtraEnabled (drop (length standard) dp.factory_preset_freqs) standard []
            (ExtraEnabled-empty standard),
        ground arith,
      )
