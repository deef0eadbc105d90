-- ===== src/Device.antt =====
-- What the handlers read of a received frame and of the device's record, and what they tell the
-- rest of the system.
use chirpstack_network_serve.Prelude.{ℕ, List, Bool, Option}
use chirpstack_network_serve.Prelude.Int.{ℤ}
use chirpstack_network_serve.Float.{FloatOps}
use chirpstack_network_serve.Lorawan.{LinkAdrReq}
use chirpstack_network_serve.Lorawan.Band.{Band, Modulation}
use chirpstack_network_serve.Profile.{DeviceProfile, ServiceProfile}

-- DeviceMode of internal/storage/device.go
pub data DeviceMode : Type 0 where
  mode_a mode_b mode_c : DeviceMode

-- gw.UplinkRXInfo: the fields that are read. For TimeSinceGpsEpoch and Time the outer `none` is
-- nil, and the value is what the conversion of the protobuf field returns (which is assigned also
-- where it reports an error); the inner `none` of Time is Go's zero time.
pub record RxInfo : Type 0 where
  pub gateway_id : ℕ
  pub lora_snr : ℕ  -- float64
  pub rssi : ℤ
  pub time_since_gps_epoch : Option ℕ
  pub time : Option (Option ℕ)

-- models.RXPacket: the fields that are read. `spreading_factor` is `none` where the LoRa
-- modulation info is nil.
pub record RxPacket : Type 0 where
  pub dr : ℕ
  pub modulation : Modulation
  pub spreading_factor : Option ℕ
  pub rx_info_set : List RxInfo

-- as.SetDeviceStatusRequest
pub record SetDeviceStatus : Type 0 where
  pub battery : ℕ
  pub battery_level_unavailable : Bool
  pub external_power_source : Bool
  pub battery_level : ℕ  -- float32
  pub margin : ℤ

-- What a handler does outside the session: UpdateDevice with a new mode, and the message to the
-- application-server, which is sent in a goroutine of its own.
pub data Effect : Type 0 where
  update_device_mode : DeviceMode → Effect
  set_device_status : SetDeviceStatus → Effect

-- What a handler is given beside the session and the block: the arguments of Handle, the band and
-- the clock, and how the calls of the database end.
pub record Env : Type 0 where
  pub band : Band LinkAdrReq
  pub float : FloatOps
  pub device_profile : DeviceProfile
  pub service_profile : ServiceProfile
  pub rx_packet : RxPacket
  pub now : ℕ
  -- storage.GetDevice and storage.UpdateDevice succeed
  pub get_device_ok : Bool
  pub update_device_ok : Bool
