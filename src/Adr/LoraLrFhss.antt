-- ===== src/Adr/LoraLrFhss.antt =====
-- LoRaLRFHSSHandler of internal/adr/lora_lr_fhss.go, and GetHandler of internal/adr/adr.go with the
-- handlers that the package registers (plugins are processes of their own, and left out).
use text.Mathlib.Text.{◌==◌ as str_eq}
use chirpstack_network_serve.Prelude.{ℕ, String, Option, none, some, ltb, if◌then◌else◌}
use chirpstack_network_serve.Float.{FloatOps}
use chirpstack_network_serve.Lorawan.{LinkAdrReq}
use chirpstack_network_serve.Lorawan.Band.{Band}
use chirpstack_network_serve.AdrTypes.{HandleRequest, HandleResponse}
use chirpstack_network_serve.Adr.Default
use chirpstack_network_serve.Adr.LrFhss

-- Handle
unfoldable pub handle : Band LinkAdrReq → FloatOps → (ℕ → ℕ) → HandleRequest → Option HandleResponse
handle band f pick req = elim (Default.handle band f req) [
  | none ↦ none
  | some lora ↦ elim (band.get_data_rate lora.dr) [
    | none ↦ none
    | some dr ↦ elim (LrFhss.handle band pick req) [
      | none ↦ none
      | some lr_fhss ↦ some (if ltb dr.spread_factor 10 then lora else lr_fhss)
    ]
  ]
]

pub data Handler : Type 0 where
  default lr_fhss lora_lr_fhss : Handler

-- GetHandler
unfoldable pub get_handler : String → Handler
get_handler id =
    if str_eq id "lora_lr_fhss"
    then lora_lr_fhss
    else if str_eq id "lr_fhss"
    then lr_fhss
    else default

-- The call of the handler's Handle.
unfoldable pub handle_with :
    Handler → Band LinkAdrReq → FloatOps → (ℕ → ℕ) → HandleRequest → Option HandleResponse
unfolding handle
handle_with default band f pick req = Default.handle band f req
handle_with lr_fhss band f pick req = LrFhss.handle band pick req
handle_with lora_lr_fhss band f pick req = handle band f pick req
