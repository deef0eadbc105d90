-- ===== src/Ack/Flow.antt =====
-- HandleDownlinkTXAck of internal/downlink/ack/ack.go.
use text.Mathlib.Text.{◌==◌ as str_eq}
use chirpstack_network_serve.Prelude.{
  Option, none, some, List, [], ◌∷◌, Result, ok, err, if◌then◌else◌,
}
use chirpstack_network_serve.Gateway.{Status, accepted, refused, TxAck, other_m_type}
use chirpstack_network_serve.Ack.{
  Store, Error, abort, invalid_ack_error, Env, AckContext, Task, run_tasks, is_accepted, on_error,
  on_no_error, for_application_payload, for_mac_only_payload, for_multicast_payload,
  for_unconfirmed_downlink, for_confirmed_downlink, transaction,
}
use chirpstack_network_serve.Ack.Zero.{
  zero_frame, zero_frame_item, zero_session, zero_profile, zero_item,
}
use chirpstack_network_serve.Ack.Tasks.{
  get_token, get_downlink_frame, decode_phy_payload, send_downlink_frame, save_downlink_frames,
  get_device_session, lock_device, delete_item, delete_multicast_queue_item, get_device_profile,
  get_item, set_device_queue_item_pending, set_device_session_conf_f_cnt, increment_a_f_cnt_down,
  increment_n_f_cnt_down, save_device_session, send_tx_ack_to_application_server,
  send_error_to_application_server_on_last_frame,
}
use chirpstack_network_serve.Ack.Report.{
  send_downlink_meta_data_to_network_controller, log_downlink_frame,
}

-- The first positive status, or else the last one.
unfoldable pub item_status : Status → List Status → Status
item_status last [] = last
item_status last (s ∷ ss) = let rest = item_status s ss in if is_accepted s then s else rest

-- The status of the acknowledgement.
unfoldable pub ack_status : Env → TxAck → Result Error Status
unfolding item_status
ack_status env ack = elim ack.items [
  | [] ↦
      if str_eq ack.error ""
      then ok accepted
      else elim (env.status_value ack.error) [ none ↦ err invalid_ack_error | some s ↦ ok s ]
  | s ∷ ss ↦ ok (item_status (refused 0) (s ∷ ss))
]

-- The tasks after a refused downlink.
unfoldable pub refused_tasks : Env → List Task
refused_tasks env =
    for_application_payload (send_error_to_application_server_on_last_frame env ∷ [])
    ∷ for_mac_only_payload (send_error_to_application_server_on_last_frame env ∷ [])
    ∷ for_multicast_payload (delete_multicast_queue_item ∷ [])
    ∷ save_downlink_frames
    ∷ send_downlink_frame env
    ∷ []

-- The tasks of an application payload, in a transaction.
unfoldable pub application_tasks : Env → List Task
application_tasks env =
    lock_device env
    ∷ get_device_session
    ∷ get_item
    ∷ for_unconfirmed_downlink (delete_item ∷ [])
    ∷ for_confirmed_downlink (
        get_device_profile env
        ∷ set_device_queue_item_pending env
        ∷ set_device_session_conf_f_cnt
        ∷ [])
    ∷ increment_a_f_cnt_down
    ∷ save_device_session
    ∷ send_tx_ack_to_application_server env
    ∷ []

-- The tasks after an accepted downlink.
unfoldable pub accepted_tasks : Env → List Task
accepted_tasks env =
    transaction (for_application_payload (application_tasks env) ∷ [])
    ∷ for_mac_only_payload (get_device_session ∷ increment_n_f_cnt_down ∷ save_device_session ∷ [])
    ∷ for_multicast_payload (delete_multicast_queue_item ∷ [])
    ∷ send_downlink_meta_data_to_network_controller
    ∷ log_downlink_frame env
    ∷ []

-- handleDownlinkTXAckTasks
unfoldable pub handle_downlink_tx_ack_tasks : Env → List Task
handle_downlink_tx_ack_tasks env =
    get_token
    ∷ get_downlink_frame
    ∷ decode_phy_payload env
    ∷ on_error (refused_tasks env)
    ∷ on_no_error (accepted_tasks env)
    ∷ []

-- The context of an acknowledgement of the status.
abbrev pub ack_context : TxAck → Status → AckContext
ack_context ack status = record {
  tx_ack = ack;
  status = status;
  token = 0;
  frame = zero_frame;
  frame_item = zero_frame_item;
  session = zero_session;
  profile = zero_profile;
  queue_item = zero_item;
  m_type = other_m_type;
  mac_payload = none;
}

-- An abort is no error.
abbrev without_abort : Option Error → Option Error
without_abort (some abort) = none
without_abort e = e

-- HandleDownlinkTXAck: what is stored then, and the error.
unfoldable pub handle_downlink_tx_ack : Env → TxAck → Store → Store × Option Error
handle_downlink_tx_ack env ack st = elim (ack_status env ack) [
  | err e ↦ (st, some e)
  | ok status ↦
      let r = run_tasks (handle_downlink_tx_ack_tasks env) (ack_context ack status, st) in
      (r.0.1, without_abort r.1)
]
