-- ===== src/Ack/Refused.antt =====
-- internal/downlink/ack/ack.go: what a refused downlink leaves as it was.
use chirpstack_network_serve.Prelude.{
  ℕ, ◌≡◌, refl, sym, subst, Bool, Option, some, List, [], ◌∷◌, ok, arith, if_rule, Option-cases,
  inl, inr, All,
}
use chirpstack_network_serve.Prelude.Assoc.{Assoc}
use chirpstack_network_serve.Gateway.{refused, TxAck}
use chirpstack_network_serve.Queue.{Table}
use chirpstack_network_serve.SessionData.{DeviceSession}
use chirpstack_network_serve.Ack.{
  Store, Error, Env, AckContext, State, Task, run_tasks, when, on_error, on_no_error,
  for_application_payload, for_mac_only_payload, for_multicast_payload,
}
use chirpstack_network_serve.Ack.Tasks.{
  get_token, get_downlink_frame, decode_phy_payload, send_downlink_frame, save_downlink_frames,
  delete_multicast_queue_item, send_error_to_application_server_on_last_frame,
}
use chirpstack_network_serve.Ack.Flow.{
  ack_status, refused_tasks, accepted_tasks, handle_downlink_tx_ack_tasks, ack_context,
  handle_downlink_tx_ack,
}

-- The task keeps what holds of the state.
abbrev pub Keeps : (State → Type 0) → Task → Type 0
Keeps P t = (s : State) → P s → P (t s).0

pub Keeps-run_tasks :
    (P : State → Type 0) (ts : List Task) → All (Keeps P) ts → Keeps P (run_tasks ts)
unfolding run_tasks
Keeps-run_tasks P [] k s p = p
Keeps-run_tasks P (t ∷ ts) k s p = elim (Option-cases (t s).1) [
  | inl e ↦
      let at : run_tasks (t ∷ ts) s ≡ run_tasks ts (t s).0 = ground (arith, e) in
      subst (λ r. P r.0) (sym at) (Keeps-run_tasks P ts k.1 (t s).0 (k.0 s p))
  | inr (x, e) ↦
      let at : run_tasks (t ∷ ts) s ≡ ((t s).0, some x) = ground (arith, e) in
      subst (λ r. P r.0) (sym at) (k.0 s p)
]

pub Keeps-when :
    (P : State → Type 0) (c : AckContext → Bool) (ts : List Task)
    → All (Keeps P) ts
    → Keeps P (when c ts)
unfolding when
Keeps-when P c ts k s p =
    if_rule (λ (r : State × Option Error). P r.0) (c s.0) (Keeps-run_tasks P ts k s p) p

-- The downlink is refused, and the device-queue and the sessions are those given.
abbrev Untouched : ℕ → Table → Assoc DeviceSession → State → Type 0
Untouched n t ds s =
    (s.0.status ≡ refused n) × (s.1.database.device_queue ≡ t) × (s.1.sessions ≡ ds)

module _ (n : ℕ) (t : Table) (ds : Assoc DeviceSession) where
  get_downlink_frame_keeps : Keeps (Untouched n t ds) get_downlink_frame
  unfolding get_downlink_frame
  get_downlink_frame_keeps s p = ground (arith, p)

  get_token_keeps : Keeps (Untouched n t ds) get_token
  unfolding get_token
  get_token_keeps s p = p

  decode_phy_payload_keeps : (env : Env) → Keeps (Untouched n t ds) (decode_phy_payload env)
  unfolding decode_phy_payload
  decode_phy_payload_keeps env s p = p

  save_downlink_frames_keeps : Keeps (Untouched n t ds) save_downlink_frames
  unfolding save_downlink_frames
  save_downlink_frames_keeps s p = ground (arith, p)

  send_downlink_frame_keeps : (env : Env) → Keeps (Untouched n t ds) (send_downlink_frame env)
  unfolding send_downlink_frame
  send_downlink_frame_keeps env s p = ground (arith, p)

  delete_multicast_queue_item_keeps : Keeps (Untouched n t ds) delete_multicast_queue_item
  unfolding delete_multicast_queue_item
  delete_multicast_queue_item_keeps s p = ground (arith, p)

  send_error_keeps :
      (env : Env) → Keeps (Untouched n t ds) (send_error_to_application_server_on_last_frame env)
  unfolding send_error_to_application_server_on_last_frame
  send_error_keeps env s p = ground (arith, p)

  refused_tasks_keep : (env : Env) → All (Keeps (Untouched n t ds)) (refused_tasks env)
  unfolding refused_tasks for_application_payload for_mac_only_payload for_multicast_payload
  refused_tasks_keep env = (
    Keeps-when (Untouched n t ds) _ _ (send_error_keeps env, tt),
    (
      Keeps-when (Untouched n t ds) _ _ (send_error_keeps env, tt),
      (
        Keeps-when (Untouched n t ds) _ _ (delete_multicast_queue_item_keeps, tt),
        (save_downlink_frames_keeps, (send_downlink_frame_keeps env, tt)),
      ),
    ),
  )

  -- The tasks of an accepted downlink do not run.
  on_no_error_keeps : (ts : List Task) → Keeps (Untouched n t ds) (on_no_error ts)
  unfolding on_no_error when
  on_no_error_keeps ts s p = ground (arith, p)

  handle_tasks_keep :
      (env : Env) → Keeps (Untouched n t ds) (run_tasks (handle_downlink_tx_ack_tasks env))
  unfolding handle_downlink_tx_ack_tasks on_error
  handle_tasks_keep env = Keeps-run_tasks (Untouched n t ds) _ (
    get_token_keeps,
    (
      get_downlink_frame_keeps,
      (
        decode_phy_payload_keeps env,
        (
          Keeps-when (Untouched n t ds) _ _ (refused_tasks_keep env),
          (on_no_error_keeps (accepted_tasks env), tt),
        ),
      ),
    ),
  )

-- The acknowledgement of a refused downlink changes neither the device-queue nor a device-session.
pub handle_downlink_tx_ack-refused :
    (env : Env) (ack : TxAck) (st : Store) (n : ℕ)
    → ack_status env ack ≡ ok (refused n)
    → ((handle_downlink_tx_ack env ack st).0.database.device_queue ≡ st.database.device_queue)
      × ((handle_downlink_tx_ack env ack st).0.sessions ≡ st.sessions)
unfolding handle_downlink_tx_ack
handle_downlink_tx_ack-refused env ack st n h =
    let kept =
      handle_tasks_keep n st.database.device_queue st.sessions env (ack_context ack (refused n), st)
        (refl, refl, refl) in
    ground (arith, kept, h)
