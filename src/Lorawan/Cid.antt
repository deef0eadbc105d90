-- ===== src/Lorawan/Cid.antt =====
-- The identifiers that the LoRaWAN specification assigns to the MAC commands: `lorawan.LinkADRReq`
-- and `lorawan.LinkADRAns` are one byte, and so for the others.
use chirpstack_network_serve.Prelude.{ℕ}

abbrev pub reset : ℕ
reset = 0x01

abbrev pub link_check : ℕ
link_check = 0x02

abbrev pub link_adr : ℕ
link_adr = 0x03

abbrev pub rx_param_setup : ℕ
rx_param_setup = 0x05

abbrev pub dev_status : ℕ
dev_status = 0x06

abbrev pub new_channel : ℕ
new_channel = 0x07

abbrev pub rx_timing_setup : ℕ
rx_timing_setup = 0x08

abbrev pub tx_param_setup : ℕ
tx_param_setup = 0x09

abbrev pub rekey : ℕ
rekey = 0x0b

abbrev pub device_time : ℕ
device_time = 0x0d

abbrev pub rejoin_param_setup : ℕ
rejoin_param_setup = 0x0f

abbrev pub ping_slot_info : ℕ
ping_slot_info = 0x10

abbrev pub ping_slot_channel : ℕ
ping_slot_channel = 0x11

abbrev pub device_mode : ℕ
device_mode = 0x20
