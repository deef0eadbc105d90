-- ===== src/Ack/Tasks.antt =====
-- The tasks of internal/downlink/ack/ack.go. The decrypted bytes of the log for the device are left
-- out of its message. A message that is sent from a goroutine of its own stands where the
-- goroutine is started.
use chirpstack_network_serve.Prelude.{
  ℕ, ◌+◌, ◌*◌, Bool, true, not, ◌&&◌, Option, none, some, List, [], ◌∷◌, ◌++◌, ok, err, ltb, leb,
  ◌==◌, if◌then◌else◌, length, get_elem?, take, drop, contains, u16, u32,
}
use chirpstack_network_serve.Prelude.Assoc.{lookup, insert}
use chirpstack_network_serve.Gps.{second}
use chirpstack_network_serve.Gateway.{FrameItem, GatewayFrame, Status}
use chirpstack_network_serve.SessionData.{DeviceSession}
use chirpstack_network_serve.Session.Boot.{MacVersion, lorawan_1_0, lorawan_1_1, get_mac_version}
use chirpstack_network_serve.Queue.{
  Item, get_device_queue_item, update_device_queue_item, delete_device_queue_item,
}
use chirpstack_network_serve.Ack.{
  DownlinkFrame, Database, Message, send_tx_packet, handle_tx_ack, handle_error, Store, abort,
  does_not_exist, no_items, too_many_items, application_server, gateway, queue, Env, AckContext,
  Task, done, fail, is_accepted,
}

-- The first two bytes, big endian, of a downlink ID of 16 bytes.
abbrev id_token : List ℕ → ℕ
id_token (a ∷ b ∷ bs) = a * 256 + b
id_token _ = 0

-- getToken
unfoldable pub get_token : Task
get_token (ctx, st) =
    let ack = ctx.tx_ack in
    done (
      record ctx {
        token =
            if not (ack.token == 0)
            then u16 ack.token
            else if length ack.downlink_id == 16
            then id_token ack.downlink_id
            else ctx.token;
      },
      st,
    )

-- The item at the first positive status.
unfoldable pub positive_item : List Status → List FrameItem → Option FrameItem
positive_item [] items = none
positive_item (s ∷ ss) [] = none
positive_item (s ∷ ss) (i ∷ is) =
    let rest = positive_item ss is in if is_accepted s then some i else rest

-- The item that is acknowledged: the first one where the acknowledgement has no items, that of the
-- first positive status, or that of the last status.
unfoldable pub acknowledged_item : List Status → List FrameItem → Option FrameItem
acknowledged_item [] items = get_elem? items 0
acknowledged_item (s ∷ ss) items = elim (positive_item (s ∷ ss) items) [
  | some i ↦ some i
  | none ↦ get_elem? items (length ss)
]

-- getDownlinkFrame: every error of GetDownlinkFrame ends the tasks.
unfoldable pub get_downlink_frame : Task
get_downlink_frame (ctx, st) = elim (lookup ctx.token st.frames) [
  | none ↦ fail abort (ctx, st)
  | some frame ↦
      let found = record ctx { frame = frame } in
      let items = frame.downlink_frame.items in
      if length items == 0
      then fail no_items (found, st)
      else if ltb (length items) (length ctx.tx_ack.items)
      then fail too_many_items (found, st)
      else elim (acknowledged_item ctx.tx_ack.items items) [
        | none ↦ done (found, st)
        | some i ↦ done (record found { frame_item = i }, st)
      ]
]

-- decodePHYPayload: an error is only logged.
unfoldable pub decode_phy_payload : Env → Task
decode_phy_payload env (ctx, st) =
    let phy = env.unmarshal_binary ctx.frame_item.phy_payload in
    done (record ctx { m_type = phy.m_type; mac_payload = phy.mac_payload }, st)

abbrev pub say : Message → Store → Store
say m st = record st { messages = st.messages ++ m ∷ [] }

-- No items of its own, and two or more frames.
abbrev pub is_legacy_retry : AckContext → Bool
is_legacy_retry ctx = length ctx.tx_ack.items == 0 && leb 2 (length ctx.frame.downlink_frame.items)

-- The gateway's frame with the second of the items only.
abbrev second_item : GatewayFrame → GatewayFrame
second_item frame = record frame { items = take 1 (drop 1 frame.items) }

-- sendDownlinkFrame
unfoldable pub send_downlink_frame : Env → Task
send_downlink_frame env (ctx, st) =
    let next = second_item ctx.frame.downlink_frame in
    if is_legacy_retry ctx
    then (if env.gateway_ok next
        then done (ctx, say (send_tx_packet next) st)
        else fail gateway (ctx, st))
    else done (ctx, st)

-- SaveDownlinkFrame
abbrev save_downlink_frame : DownlinkFrame → Store → Store
save_downlink_frame frame st = record st { frames = insert frame.token frame st.frames }

-- saveDownlinkFrames: without the first item, in the context too.
unfoldable pub save_downlink_frames : Task
save_downlink_frames (ctx, st) =
    let items = drop 1 ctx.frame.downlink_frame.items in
    let rest = record ctx.frame {
      downlink_frame = record ctx.frame.downlink_frame { items = items };
    } in
    if is_legacy_retry ctx
    then done (record ctx { frame = rest }, save_downlink_frame rest st)
    else done (ctx, st)

-- `copy(devEUI[:], ...)`: the zero value where there is none.
abbrev pub eui : Option ℕ → ℕ
eui none = 0
eui (some e) = e

-- getDeviceSession
unfoldable pub get_device_session : Task
get_device_session (ctx, st) = elim (lookup (eui ctx.frame.dev_eui) st.sessions) [
  | none ↦ fail does_not_exist (ctx, st)
  | some ds ↦ done (record ctx { session = ds }, st)
]

-- lockDevice
unfoldable pub lock_device : Env → Task
lock_device env (ctx, st) =
    if env.device_exists (eui ctx.frame.dev_eui)
    then done (ctx, st)
    else fail does_not_exist (ctx, st)

abbrev with_queue : Store → Database → Store
with_queue st db = record st { database = db }

-- deleteDeviceQueueItem
unfoldable pub delete_item : Task
delete_item (ctx, st) =
    elim (delete_device_queue_item st.database.device_queue ctx.frame.device_queue_item_id) [
      | err e ↦ fail (queue e) (ctx, st)
      | ok t ↦ done (ctx, with_queue st (record st.database { device_queue = t }))
    ]

abbrev without : ℕ → List ℕ → List ℕ
without id [] = []
without id (i ∷ is) = let rest = without id is in if i == id then rest else i ∷ rest

-- deleteMulticastQueueItem
unfoldable pub delete_multicast_queue_item : Task
delete_multicast_queue_item (ctx, st) =
    let ids = st.database.multicast_queue in
    let id = ctx.frame.multicast_queue_item_id in
    if contains ids id
    then done (ctx, with_queue st (record st.database { multicast_queue = without id ids }))
    else fail does_not_exist (ctx, st)

-- getDeviceProfile
unfoldable pub get_device_profile : Env → Task
get_device_profile env (ctx, st) = elim (env.device_profile ctx.session.device_profile_id) [
  | none ↦ fail does_not_exist (ctx, st)
  | some dp ↦ done (record ctx { profile = dp }, st)
]

-- getDeviceQueueItem
unfoldable pub get_item : Task
get_item (ctx, st) =
    elim (get_device_queue_item st.database.device_queue ctx.frame.device_queue_item_id) [
      | err e ↦ fail (queue e) (ctx, st)
      | ok i ↦ done (record ctx { queue_item = i }, st)
    ]

abbrev pub or_else : Option ℕ → ℕ → ℕ
or_else none t = t
or_else (some u) t = u

-- The item as it is pending: a timeout that is set stays, as for Class-B.
unfoldable pub pending_item : Env → AckContext → Item
pending_item env ctx =
    let timeout =
      if ctx.profile.supports_class_c
      then env.now + ctx.profile.class_c_timeout * second
      else env.now in
    record ctx.queue_item {
      is_pending = true;
      timeout_after = some (or_else ctx.queue_item.timeout_after timeout);
    }

-- setDeviceQueueItemPending
unfoldable pub set_device_queue_item_pending : Env → Task
set_device_queue_item_pending env (ctx, st) =
    let pending = record ctx { queue_item = pending_item env ctx } in
    elim (update_device_queue_item st.database.device_queue (pending_item env ctx)) [
      | err e ↦ fail (queue e) (pending, st)
      | ok t ↦ done (pending, with_queue st (record st.database { device_queue = t }))
    ]

abbrev with_session : AckContext → DeviceSession → AckContext
with_session ctx ds = record ctx { session = ds }

-- setDeviceSessionConfFcnt
unfoldable pub set_device_session_conf_f_cnt : Task
set_device_session_conf_f_cnt (ctx, st) =
    done (with_session ctx (record ctx.session { conf_f_cnt = ctx.queue_item.f_cnt }), st)

abbrev pub next_a_f_cnt_down : MacVersion → DeviceSession → DeviceSession
next_a_f_cnt_down lorawan_1_0 ds = record ds { n_f_cnt_down = u32 (ds.n_f_cnt_down + 1) }
next_a_f_cnt_down lorawan_1_1 ds = record ds { a_f_cnt_down = u32 (ds.a_f_cnt_down + 1) }

-- incrementAFCntDown
unfoldable pub increment_a_f_cnt_down : Task
increment_a_f_cnt_down (ctx, st) =
    done (with_session ctx (next_a_f_cnt_down (get_mac_version ctx.session) ctx.session), st)

-- incrementNFcntDown
unfoldable pub increment_n_f_cnt_down : Task
increment_n_f_cnt_down (ctx, st) = done (
  with_session ctx (record ctx.session { n_f_cnt_down = u32 (ctx.session.n_f_cnt_down + 1) }),
  st,
)

-- saveDeviceSession
unfoldable pub save_device_session : Task
save_device_session (ctx, st) =
    done (ctx, record st { sessions = insert ctx.session.dev_eui ctx.session st.sessions })

-- sendTxAckToApplicationServer
unfoldable pub send_tx_ack_to_application_server : Env → Task
send_tx_ack_to_application_server env (ctx, st) =
    let message =
      handle_tx_ack ctx.frame.dev_eui ctx.queue_item.f_cnt ctx.frame.downlink_frame.gateway_id
        ctx.frame_item.tx_info in
    if env.as_client_ok ctx.frame.routing_profile_id
    then done (ctx, say message st)
    else fail application_server (ctx, st)

-- sendErrorToApplicationServerOnLastFrame
unfoldable pub send_error_to_application_server_on_last_frame : Env → Task
send_error_to_application_server_on_last_frame env (ctx, st) = elim ctx.mac_payload [
  | none ↦ done (ctx, st)
  | some pl ↦
      if is_legacy_retry ctx
      then done (ctx, st)
      else if env.as_client_ok ctx.frame.routing_profile_id
      then done (ctx, say (handle_error ctx.frame.dev_eui pl.f_cnt ctx.status) st)
      else fail application_server (ctx, st)
]
