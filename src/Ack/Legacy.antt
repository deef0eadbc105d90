-- ===== src/Ack/Legacy.antt =====
-- internal/downlink/ack/ack.go: a refused downlink whose acknowledgement has no items, where
-- saveDownlinkFrames and sendDownlinkFrame follow each other.
use chirpstack_network_serve.Prelude.{
  ℕ, ◌≡◌, refl, ◌∙◌, Bool, true, false, none, some, List, [], ◌∷◌, ok, arith, ◌==◌, Option-cases,
  inl, inr, u16,
}
use chirpstack_network_serve.Prelude.Assoc.{lookup, insert}
use chirpstack_network_serve.Gateway.{refused, TxAck, FrameItem}
use chirpstack_network_serve.Ack.{
  DownlinkFrame, Store, Env, AckContext, State, Task, run_tasks, when, on_error, on_no_error,
  for_application_payload, for_mac_only_payload, for_multicast_payload, for_application,
  for_mac_only, is_refused_ack, is_accepted_ack,
}
use chirpstack_network_serve.Ack.Steps.{run_tasks-nil, run_tasks-done, when-skip, when-run}
use chirpstack_network_serve.Ack.Tasks.{
  get_token, get_downlink_frame, decode_phy_payload, send_downlink_frame, save_downlink_frames,
  delete_multicast_queue_item, send_error_to_application_server_on_last_frame, acknowledged_item,
  is_legacy_retry,
}
use chirpstack_network_serve.Ack.Flow.{
  ack_status, refused_tasks, accepted_tasks, handle_downlink_tx_ack_tasks, ack_context,
  handle_downlink_tx_ack,
}

-- The downlink-frame with other items.
abbrev pub with_items : DownlinkFrame → List FrameItem → DownlinkFrame
with_items f is = record f { downlink_frame = record f.downlink_frame { items = is } }

error_task_skips :
    (env : Env) (c : AckContext → Bool) (s : State)
    → is_legacy_retry s.0 ≡ true
    → when c (send_error_to_application_server_on_last_frame env ∷ []) s ≡ (s, none)
unfolding when run_tasks send_error_to_application_server_on_last_frame
error_task_skips env c s h = elim (Option-cases s.0.mac_payload) [
  | inl e ↦ ground (arith, e, h)
  | inr (pl, e) ↦ ground (arith, e, h)
]

save_downlink_frames-two :
    (s : State) (a b : FrameItem)
    → s.0.tx_ack.items ≡ []
    → s.0.frame.downlink_frame.items ≡ a ∷ b ∷ []
    → let f = with_items s.0.frame (b ∷ []) in
      save_downlink_frames s
      ≡ ((record s.0 { frame = f }, record s.1 { frames = insert f.token f s.1.frames }), none)
unfolding save_downlink_frames
save_downlink_frames-two s a b i h = ground (arith, i, h)

send_downlink_frame-one :
    (env : Env) (s : State) (b : FrameItem)
    → s.0.frame.downlink_frame.items ≡ b ∷ []
    → send_downlink_frame env s ≡ (s, none)
unfolding send_downlink_frame
send_downlink_frame-one env s b h = ground (arith, h)

for_multicast_payload-skip :
    (ts : List Task) (s : State)
    → s.0.frame.multicast_group_id ≡ none
    → for_multicast_payload ts s ≡ (s, none)
unfolding for_multicast_payload when
for_multicast_payload-skip ts s m = ground (arith, m)

refused_tasks-two :
    (env : Env) (s : State) (a b : FrameItem)
    → s.0.tx_ack.items ≡ []
    → s.0.frame.downlink_frame.items ≡ a ∷ b ∷ []
    → s.0.frame.multicast_group_id ≡ none
    → let f = with_items s.0.frame (b ∷ []) in
      run_tasks (refused_tasks env) s
      ≡ ((record s.0 { frame = f }, record s.1 { frames = insert f.token f s.1.frames }), none)
unfolding refused_tasks for_application_payload for_mac_only_payload for_multicast_payload
refused_tasks-two env s a b i h m =
    let retry : is_legacy_retry s.0 ≡ true = ground (arith, i, h) in
    let f = with_items s.0.frame (b ∷ []) in
    let u : State =
      (record s.0 { frame = f }, record s.1 { frames = insert f.token f s.1.frames }) in
    run_tasks-done _ _ s s (error_task_skips env for_application s retry)
    ∙ run_tasks-done _ _ s s (error_task_skips env for_mac_only s retry)
    ∙ run_tasks-done _ _ s s (for_multicast_payload-skip (delete_multicast_queue_item ∷ []) s m)
    ∙ run_tasks-done save_downlink_frames _ s u (save_downlink_frames-two s a b i h)
    ∙ run_tasks-done _ [] u u (send_downlink_frame-one env u b refl)
    ∙ run_tasks-nil u

-- The state in which the tasks of a refused downlink begin.
decoded : Env → AckContext → DownlinkFrame → FrameItem → AckContext
decoded env ctx f i =
    let phy = env.unmarshal_binary i.phy_payload in
    record ctx { frame = f; frame_item = i; m_type = phy.m_type; mac_payload = phy.mac_payload }

get_token-token :
    (ctx : AckContext) (st : Store)
    → (ctx.tx_ack.token == 0) ≡ false
    → get_token (ctx, st) ≡ ((record ctx { token = u16 ctx.tx_ack.token }, st), none)
unfolding get_token
get_token-token ctx st h = ground (arith, h)

get_downlink_frame-first :
    (ctx : AckContext) (st : Store) (f : DownlinkFrame) (a : FrameItem) (rest : List FrameItem)
    → ctx.tx_ack.items ≡ []
    → lookup ctx.token st.frames ≡ some f
    → f.downlink_frame.items ≡ a ∷ rest
    → get_downlink_frame (ctx, st) ≡ ((record ctx { frame = f; frame_item = a }, st), none)
unfolding get_downlink_frame acknowledged_item
get_downlink_frame-first ctx st f a rest i l is = ground (arith, i, l, is)

decode_phy_payload-decoded :
    (env : Env) (ctx : AckContext) (st : Store) (f : DownlinkFrame) (i : FrameItem)
    → decode_phy_payload env (record ctx { frame = f; frame_item = i }, st)
      ≡ ((decoded env ctx f i, st), none)
unfolding decode_phy_payload decoded
decode_phy_payload-decoded env ctx st f i = refl

-- An acknowledgement without items that refuses a downlink of two: the second one is stored as the
-- only item that is left, and nothing is sent, neither this item nor a message.
pub handle_downlink_tx_ack-legacy_two :
    (env : Env) (ack : TxAck) (st : Store) (n : ℕ) (f : DownlinkFrame) (a b : FrameItem)
    → ack.items ≡ []
    → (ack.token == 0) ≡ false
    → ack_status env ack ≡ ok (refused n)
    → lookup (u16 ack.token) st.frames ≡ some f
    → f.downlink_frame.items ≡ a ∷ b ∷ []
    → f.multicast_group_id ≡ none
    → handle_downlink_tx_ack env ack st
      ≡ (record st { frames = insert f.token (with_items f (b ∷ [])) st.frames }, none)
unfolding handle_downlink_tx_ack handle_downlink_tx_ack_tasks on_error on_no_error decoded
handle_downlink_tx_ack-legacy_two env ack st n f a b i t h l is m =
    let ctx = record (ack_context ack (refused n)) { token = u16 ack.token } in
    let s : State = (decoded env ctx f a, st) in
    let g = with_items f (b ∷ []) in
    let u : State = (record s.0 { frame = g }, record st { frames = insert f.token g st.frames }) in
    let run : run_tasks (handle_downlink_tx_ack_tasks env) (ack_context ack (refused n), st)
        ≡ (u, none) =
      run_tasks-done get_token _ (ack_context ack (refused n), st) (ctx, st)
        (get_token-token (ack_context ack (refused n)) st t)
      ∙ run_tasks-done get_downlink_frame _ (ctx, st) (record ctx { frame = f; frame_item = a }, st)
          (get_downlink_frame-first ctx st f a (b ∷ []) i l is)
      ∙ run_tasks-done (decode_phy_payload env) _ (record ctx { frame = f; frame_item = a }, st) s
          (decode_phy_payload-decoded env ctx st f a)
      ∙ run_tasks-done _ _ s u
          (when-run is_refused_ack (refused_tasks env) s refl ∙ refused_tasks-two env s a b i is m)
      ∙ run_tasks-done _ [] u u (when-skip is_accepted_ack (accepted_tasks env) u refl)
      ∙ run_tasks-nil u in
    ground (arith, run, h)
