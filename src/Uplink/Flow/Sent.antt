-- ===== src/Uplink/Flow/Sent.antt =====
-- What the tasks of internal/uplink/data/data.go tell the application-server.
use chirpstack_network_serve.Prelude.{
  ℕ, ◌≡◌, ◌≢◌, ◌⊎◌, Option, none, some, List, [], ◌∷◌, ◌++◌, length,
}
use chirpstack_network_serve.Lorawan.{MacCommand}
use chirpstack_network_serve.SessionData.{DeviceSession, KeyEnvelope}
use chirpstack_network_serve.MacCommand.Handle.Context.{Context, context_of}
use chirpstack_network_serve.Uplink.Commands.{HandleUplinkData, UplinkEffect, uplink_data}
use chirpstack_network_serve.Uplink.Flow.{Frame, data_payload, UplinkContext, Task, Setting}

-- DevEUI, JoinEUI, DevAddr and the envelope of the AppSKey.
abbrev pub Sender : Type 0
Sender = ℕ × ℕ × ℕ × Option KeyEnvelope

abbrev sender_of_context : Context → Sender
sender_of_context c = (c.dev_eui, c.join_eui, c.dev_addr, c.keys.3)

abbrev pub sender : DeviceSession → Sender
sender s = sender_of_context (context_of s)

-- The bytes are those of the only payload, for a port other than 0; without a port, for port 0 and
-- for another number of payloads there are none.
abbrev pub IsPayload : Frame → List ℕ → Type 0
IsPayload frame bytes =
    ((p : ℕ) × (frame.f_port ≡ some p) × (p ≢ 0) × (frame.frm_payload ≡ data_payload bytes ∷ []))
    ⊎ ((bytes ≡ [])
        × ((frame.f_port ≡ none) ⊎ (frame.f_port ≡ some 0) ⊎ (length frame.frm_payload ≢ 1)))

-- The last of the effects is the message with the frame's counter, port and bytes, and with the
-- identity of the sender; the envelope goes with the DevAddr, where there is one.
pub record IsSent (st : Setting) (s : Sender) (effects : List UplinkEffect) : Type 0 where
  pub before : List UplinkEffect
  pub message : HandleUplinkData
  pub last : effects ≡ before ++ uplink_data message ∷ []
  pub payload : IsPayload st.frame message.payload
  pub device : (message.dev_eui ≡ s.0) × (message.join_eui ≡ s.1)
  pub f_cnt : message.f_cnt ≡ st.frame.f_cnt
  pub confirmed : message.confirmed_uplink ≡ st.frame.confirmed
  pub activation :
      message.device_activation_context ≡ elim s.3 [ none ↦ none | some k ↦ some (s.2, k) ]

abbrev KeepsSender : Task → Type 0
KeepsSender t = (ctx : UplinkContext) → sender (t ctx).0.session ≡ sender ctx.session
