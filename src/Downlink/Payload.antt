-- ===== src/Downlink/Payload.antt =====
-- setPHYPayloads of internal/downlink/data/data.go: the frame for each downlink opportunity. The
-- LoRaWAN library's encryption and encoding are parameters.
pub mod Collect
pub mod Bounds
pub mod Fields
use chirpstack_network_serve.Prelude.{
  ℕ, zero, suc, ◌+◌, ◌-◌, ◌^◌, Bool, true, false, not, ◌&&◌, Option, none, some, List, [], ◌∷◌,
  ◌++◌, Result, ok, err, ◌>>=◌, ltb, leb, ◌==◌, if◌then◌else◌, length, u32,
}
use chirpstack_network_serve.Lorawan.{MacCommand}
use chirpstack_network_serve.Gateway.{
  MType, unconfirmed_data_down, confirmed_data_down, FrameItem, TxInfo,
}
use chirpstack_network_serve.SessionData.{DeviceSession}
use chirpstack_network_serve.Session.Boot.{MacVersion, lorawan_1_0, lorawan_1_1, get_mac_version}
use chirpstack_network_serve.MacCommand.Block.{Block}
use chirpstack_network_serve.Queue.{Item}

-- The FRMPayload: the payloads of the slice, of either kind.
pub data FrmPayload : Type 0 where
  no_frm_payload : FrmPayload
  commands : List MacCommand → FrmPayload
  data_payload : List ℕ → FrmPayload

-- lorawan.MHDR and lorawan.MACPayload, with the FHDR flattened
pub record Phy : Type 0 where
  pub m_type : MType
  pub dev_addr : ℕ
  pub f_cnt : ℕ
  pub adr : Bool
  pub ack : Bool
  pub f_pending : Bool
  pub f_opts : List MacCommand
  pub f_port : Option ℕ
  pub frm_payload : FrmPayload

-- A frame `P` of the library: EncryptFRMPayload and EncryptFOpts for a key, SetDownlinkDataMIC for
-- the version, the confirmed frame-counter and a key, and MarshalBinary.
pub record Encoder (P : Type 0) : Type 0 where
  pub phy_payload : Phy → P
  pub encrypt_frm_payload : ℕ → P → Option P
  pub encrypt_f_opts : ℕ → P → Option P
  pub set_downlink_data_mic : MacVersion → ℕ → ℕ → P → Option P
  pub marshal_binary : P → Option (List ℕ)

pub data PayloadError : Type 0 where
  block_size encrypt_frm_payload_error encrypt_f_opts_error set_mic marshal_binary_error :
      PayloadError

-- A downlink opportunity: downlinkFrameItem
pub record Opportunity : Type 0 where
  pub frame_item : FrameItem
  pub remaining_payload_size : ℕ

-- What the loop reads of the context, and DisableADR.
pub record PayloadContext : Type 0 where
  pub session : DeviceSession
  pub mac_commands : List Block
  pub queue_item : Option Item
  pub more_device_queue_items : Bool
  pub ack : Bool
  pub disable_adr : Bool

-- What a MAC command marshals to.
abbrev pub Marshal : Type 0
Marshal = MacCommand → Option (List ℕ)

-- Size, for the commands of a block
unfoldable pub size : Marshal → List MacCommand → Result PayloadError ℕ
size m [] = ok 0
size m (c ∷ cs) = elim (m c) [
  | none ↦ err block_size
  | some b ↦ elim (size m cs) [ err e ↦ err e | ok n ↦ ok (length b + n) ]
]

-- The commands that are collected, their size, and what remains of the payload.
pub record Collected : Type 0 where
  pub chosen : List MacCommand
  pub command_size : ℕ
  pub remaining : ℕ

-- The loop over the blocks, which ends at the first one that does not fit.
unfoldable pub collect : Marshal → List Block → Collected → Result PayloadError Collected
collect m [] c = ok c
collect m (b ∷ bs) c =
    let rest : Collected → Result PayloadError Collected = λ d. collect m bs d in
    elim (size m b.mac_commands) [
      | err e ↦ err e
      | ok s ↦ elim (ltb c.remaining s) [
        | true ↦ ok c
        | false ↦ rest (record {
          chosen = c.chosen ++ b.mac_commands;
          command_size = c.command_size + s;
          remaining = c.remaining - s;
        })
      ]
    ]

abbrev pub is_some {ℓ} : {A : Type ℓ} → Option A → Bool
is_some none = false
is_some (some a) = true

-- The frame before its payloads are set.
abbrev base_frame : PayloadContext → Phy
base_frame ctx = record {
  m_type = unconfirmed_data_down;
  dev_addr = ctx.session.dev_addr;
  f_cnt = ctx.session.n_f_cnt_down;
  adr = not ctx.disable_adr;
  ack = ctx.ack;
  f_pending = ctx.more_device_queue_items;
  f_opts = [];
  f_port = none;
  frm_payload = no_frm_payload;
}

abbrev pub data_type : Bool → MType
data_type true = confirmed_data_down
data_type false = unconfirmed_data_down

-- The frame for the collected commands, and what remains of the payload.
unfoldable pub frame : PayloadContext → Collected → Phy × ℕ
frame ctx c =
    if ltb 15 c.command_size
    then (
      record (base_frame ctx) {
        f_pending = is_some ctx.queue_item;
        frm_payload = commands c.chosen;
        f_port = some 0;
        f_cnt = ctx.session.n_f_cnt_down;
      },
      c.remaining,
    )
    else elim ctx.queue_item [
      | none ↦ (record (base_frame ctx) { f_opts = c.chosen }, c.remaining)
      | some item ↦
          if leb (length item.frm_payload) c.remaining
          then (
            record (base_frame ctx) {
              f_opts = c.chosen;
              f_port = some item.f_port;
              f_cnt = item.f_cnt;
              frm_payload = data_payload item.frm_payload;
              m_type = data_type item.confirmed;
            },
            c.remaining - length item.frm_payload,
          )
          else (record (base_frame ctx) { f_opts = c.chosen; f_pending = true }, c.remaining)
    ]

abbrev is_port_0 : Option ℕ → Bool
is_port_0 none = false
is_port_0 (some p) = p == 0

abbrev or_error : {P : Type 0} → PayloadError → Option P → Result PayloadError P
or_error e none = err e
or_error e (some p) = ok p

abbrev f_opts_encrypted : {P : Type 0} → Encoder P → MacVersion → ℕ → P → Result PayloadError P
f_opts_encrypted lib lorawan_1_0 key p = ok p
f_opts_encrypted lib lorawan_1_1 key p = or_error encrypt_f_opts_error (lib.encrypt_f_opts key p)

-- `FCntUp - 1` as uint32
abbrev pub acknowledged_f_cnt : DeviceSession → ℕ
acknowledged_f_cnt ds = u32 (ds.f_cnt_up + (2 ^ 32 - 1))

-- The frame is encrypted, gets its MIC and is marshalled.
unfoldable pub encode :
    {P : Type 0} → Encoder P → DeviceSession → Phy → Result PayloadError (List ℕ)
encode lib ds phy = do
  let version = get_mac_version ds
  p ←
      (if is_port_0 phy.f_port
        then or_error encrypt_frm_payload_error
            (lib.encrypt_frm_payload ds.nwk_s_enc_key (lib.phy_payload phy))
        else ok (lib.phy_payload phy))
  q ← f_opts_encrypted lib version ds.nwk_s_enc_key p
  s ←
      or_error set_mic
        (lib.set_downlink_data_mic version (acknowledged_f_cnt ds) ds.s_nwk_s_int_key q)
  or_error marshal_binary_error (lib.marshal_binary s)

abbrev pub nothing : Opportunity → Collected
nothing o = record { chosen = []; command_size = 0; remaining = o.remaining_payload_size }

-- The body of setPHYPayloads for one opportunity.
unfoldable pub set_phy_payload :
    {P : Type 0}
    → Encoder P
    → Marshal
    → PayloadContext
    → Opportunity
    → Result PayloadError Opportunity
set_phy_payload lib m ctx o = do
  c ← collect m ctx.mac_commands (nothing o)
  let framed = frame ctx c
  bytes ← encode lib ctx.session framed.0
  ok (record {
    frame_item = record o.frame_item { phy_payload = bytes };
    remaining_payload_size = framed.1;
  })

-- setPHYPayloads: the opportunities, whose items make the DownlinkFrame.
unfoldable pub set_phy_payloads :
    {P : Type 0}
    → Encoder P
    → Marshal
    → PayloadContext
    → List Opportunity
    → Result PayloadError (List Opportunity)
set_phy_payloads lib m ctx [] = ok []
set_phy_payloads lib m ctx (o ∷ os) = do
  p ← set_phy_payload lib m ctx o
  ps ← set_phy_payloads lib m ctx os
  ok (p ∷ ps)

-- stopOnNothingToSend: whether the tasks end here.
unfoldable pub stop_on_nothing_to_send : PayloadContext → Bool → Bool
stop_on_nothing_to_send ctx must_send =
    not (is_some ctx.queue_item) && length ctx.mac_commands == 0 && not ctx.ack && not must_send
