-- ===== src/Downlink/AdrChange.antt =====
-- requestADRChange of internal/downlink/data/data.go.
pub mod Power
pub mod Mask
pub mod Carried
use chirpstack_network_serve.Prelude.{
  ℕ, zero, suc, ◌+◌, ◌/◌, ◌%◌, Bool, true, false, ◌&&◌, Option, none, some, List, [], ◌∷◌, ◌++◌,
  map, Result, ok, err, ◌>>=◌, u8, ◌==◌, if◌then◌else◌,
}
use chirpstack_network_serve.Prelude.Int.{ℤ, pos, negsuc}
use chirpstack_network_serve.Float.{FloatOps}
use chirpstack_network_serve.Lorawan.{LinkAdrReq, MacCommand, Payload, link_adr_req}
use chirpstack_network_serve.Lorawan.Cid
use chirpstack_network_serve.Lorawan.Band.{Band}
use chirpstack_network_serve.Profile.{DeviceProfile, ServiceProfile}
use chirpstack_network_serve.SessionData.{DeviceSession, UplinkHistory}
use chirpstack_network_serve.AdrTypes.{UplinkMetaData, HandleRequest, HandleResponse}
use chirpstack_network_serve.Adr.LoraLrFhss.{get_handler, handle_with}
use chirpstack_network_serve.MacCommand.Block.{Block, one_command}
use chirpstack_network_serve.MacCommand.Inform.{required_snr}
use chirpstack_network_serve.Downlink.Requests.{Config}
use chirpstack_network_serve.Downlink.Filter.{seen}

pub data Error : Type 0 where
  -- the errors of GetDataRate, and of the handler
  band_error adr_error : Error
  unexpected_payload : Error
  -- a block without commands
  panic : Error
  out_of_fuel : Error

abbrev pub is_zero : ℤ → Bool
is_zero (pos n) = n == 0
is_zero (negsuc n) = false

-- The loop over the TX power indices of the band from i on, until the band has none; `found` is the
-- last one with an offset other than 0. `none` is out of fuel.
unfoldable pub last_tx_power_index : Band LinkAdrReq → ℕ → ℕ → ℕ → Option ℕ
last_tx_power_index band zero i found = none
last_tx_power_index band (suc fuel) i found =
    let rest = last_tx_power_index band fuel (i + 1) in
    elim (band.get_tx_power_offset i) [
      | none ↦ some found
      | some offset ↦ rest (if is_zero offset then found else i)
    ]

-- More indices than the 4 bits of a TX power can name.
abbrev pub tx_power_fuel : ℕ
tx_power_fuel = 256

-- maxTxPowerIndex
unfoldable pub max_tx_power_index : Band LinkAdrReq → DeviceSession → Option ℕ
max_tx_power_index band ds =
    if ds.max_supported_tx_power_index == 0
    then last_tx_power_index band tx_power_fuel 0 0
    else some ds.max_supported_tx_power_index

-- The conversions and operations on float64 and float32.
pub record Floats : Type 0 where
  pub f64 : FloatOps
  pub f32 : FloatOps
  -- float32(x)
  pub narrow : ℕ → ℕ

-- requiredSNRforDR; a spreading-factor that is not in the table has 0.
abbrev required_snr_for : Floats → ℕ → ℕ
required_snr_for fs sf = elim (required_snr fs.f64 sf) [
  | none ↦ fs.narrow (fs.f64.of_ℤ (pos 0))
  | some snr ↦ fs.narrow snr
]

-- A record of the session's history for the ADR handler; MaxRSSI is not set.
abbrev meta_data : Floats → UplinkHistory → UplinkMetaData
meta_data fs uh = record {
  f_cnt = uh.f_cnt;
  max_snr = fs.narrow uh.max_snr;
  max_rssi = pos 0;
  tx_power_index = uh.tx_power_index;
  gateway_count = uh.gateway_count;
}

-- handleReq
unfoldable pub adr_request :
    Config → Floats → ServiceProfile → DeviceSession → ℕ → ℕ → HandleRequest
adr_request conf fs sp ds max_tx_power_index required = record {
  adr = ds.adr;
  dr = ds.dr;
  tx_power_index = ds.tx_power_index;
  nb_trans = ds.nb_trans;
  max_tx_power_index = max_tx_power_index;
  required_snr_for_dr = required;
  installation_margin = conf.installation_margin;
  min_dr = sp.dr_min;
  max_dr = sp.dr_max;
  uplink_history = map (meta_data fs) ds.uplink_history;
}

abbrev pub set_bit : ℕ → List Bool → List Bool
set_bit n [] = []
set_bit zero (b ∷ bs) = true ∷ bs
set_bit (suc n) (b ∷ bs) = b ∷ set_bit n bs

-- The loop over the enabled channels; `none` is the chMaskCntl -1.
unfoldable pub mask_from : Option ℕ → List Bool → List ℕ → List Bool × Option ℕ
mask_from cntl mask [] = (mask, cntl)
mask_from none mask (c ∷ cs) = mask_from (some (c / 16)) (set_bit (c % 16) mask) cs
mask_from (some k) mask (c ∷ cs) =
    let rest = mask_from (some k) (set_bit (c % 16) mask) cs in
    if k == c / 16 then rest else (mask, some k)

abbrev pub unset : ℕ → List Bool
unset zero = []
unset (suc n) = false ∷ unset n

-- The zero value of lorawan.ChMask, which has 16 bits.
abbrev pub no_channels : List Bool
no_channels = unset 16

-- uint8(chMaskCntl)
abbrev pub cntl_byte : Option ℕ → ℕ
cntl_byte none = 255
cntl_byte (some k) = u8 k

-- The payload of a new LinkADRReq.
unfoldable pub new_link_adr_req : HandleResponse → List ℕ → LinkAdrReq
unfolding mask_from
new_link_adr_req resp enabled = record {
  data_rate = u8 resp.dr;
  tx_power = u8 resp.tx_power_index;
  ch_mask = (mask_from none no_channels enabled).0;
  ch_mask_cntl = cntl_byte (mask_from none no_channels enabled).1;
  nb_rep = u8 resp.nb_trans;
}

-- The ADR parameters are written into a payload that is pending.
abbrev set_parameters : HandleResponse → Payload → Result Error Payload
set_parameters resp (link_adr_req r) = ok (
    link_adr_req (record r {
      data_rate = u8 resp.dr;
      tx_power = u8 resp.tx_power_index;
      nb_rep = u8 resp.nb_trans;
    }))
set_parameters resp _ = err unexpected_payload

-- ... that of the last command of the block,
abbrev set_last_command : HandleResponse → List MacCommand → Result Error (List MacCommand)
set_last_command resp [] = err panic
set_last_command resp (c ∷ []) = do
  payload ← set_parameters resp c.payload
  ok (record c { payload = payload } ∷ [])
set_last_command resp (c ∷ d ∷ cs) = do rest ← set_last_command resp (d ∷ cs); ok (c ∷ rest)

-- ... and the last block with the identifier of LinkADRReq.
abbrev set_last_block : HandleResponse → List Block → Result Error (List Block)
set_last_block resp [] = ok []
set_last_block resp (b ∷ bs) =
    let rest = set_last_block resp bs in
    if seen Cid.link_adr bs
    then (do out ← rest; ok (b ∷ out))
    else if b.cid == Cid.link_adr
    then (do
      cmds ← set_last_command resp b.mac_commands
      ok (record b { mac_commands = cmds } ∷ bs))
    else ok (b ∷ bs)

abbrev pub is_same : HandleRequest → HandleResponse → Bool
is_same req resp =
    resp.dr == req.dr && resp.tx_power_index == req.tx_power_index && resp.nb_trans == req.nb_trans

-- What follows the answer of the handler.
unfoldable pub apply_response :
    HandleRequest → HandleResponse → List ℕ → List Block → Result Error (List Block)
unfolding new_link_adr_req
apply_response req resp enabled commands =
    if is_same req resp
    then ok commands
    else if seen Cid.link_adr commands
    then set_last_block resp commands
    else ok
        (commands ++ one_command Cid.link_adr (link_adr_req (new_link_adr_req resp enabled)) ∷ [])

-- requestADRChange: ctx.MACCommands after it. `pick` is the random choice of the handlers.
unfoldable pub request_adr_change :
    Config
    → Band LinkAdrReq
    → Floats
    → (ℕ → ℕ)
    → DeviceProfile
    → ServiceProfile
    → DeviceSession
    → List Block
    → Result Error (List Block)
unfolding apply_response max_tx_power_index
request_adr_change conf band fs pick dp sp ds commands =
    if conf.disable_adr then ok commands else elim (max_tx_power_index band ds) [
      | none ↦ err out_of_fuel
      | some max_index ↦ elim (band.get_data_rate ds.dr) [
        | none ↦ err band_error
        | some dr ↦
            let req = adr_request conf fs sp ds max_index (required_snr_for fs dr.spread_factor) in
            elim (handle_with (get_handler dp.adr_algorithm_id) band fs.f32 pick req) [
              | none ↦ err adr_error
              | some resp ↦ apply_response req resp ds.enabled_uplink_channels commands
            ]
      ]
    ]
