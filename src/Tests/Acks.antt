-- ===== src/Tests/Acks.antt =====
-- The examples of the acknowledgement of a downlink.
use chirpstack_network_serve.Prelude.{
  ℕ, ◌≡◌, refl, true, false, none, some, [], ◌∷◌, ok, arith, u16, ◌==◌,
}
use chirpstack_network_serve.Prelude.Int.{pos}
use chirpstack_network_serve.Prelude.Assoc.{lookup, insert}
use chirpstack_network_serve.Gateway.{
  FrameItem, no_modulation, delay, accepted, refused, TxAck, MType, unconfirmed_data_down,
  confirmed_data_down, MacPayload,
}
use chirpstack_network_serve.Queue.{get_device_queue_item, find_item, remove_if, update_rows}
use chirpstack_network_serve.Ack.{
  DownlinkFrame, Store, Env, State, for_application_payload, transaction,
}
use chirpstack_network_serve.Ack.Tasks.{acknowledged_item}
use chirpstack_network_serve.Ack.Flow.{
  item_status, ack_status, ack_context, application_tasks, handle_downlink_tx_ack,
}
use chirpstack_network_serve.Ack.Refused.{handle_downlink_tx_ack-refused}
use chirpstack_network_serve.Ack.Choice.{Chosen, item_status-Chosen}
use chirpstack_network_serve.Ack.Legacy.{with_items, handle_downlink_tx_ack-legacy_two}
use chirpstack_network_serve.Ack.Accepted.{
  IsKnown, loaded, settled, confirmed_context, transaction-unconfirmed, transaction-confirmed,
}
use chirpstack_network_serve.Tests.Sample.{sample_session, sample_device_profile}
use chirpstack_network_serve.Tests.Queues.{two_items, queued}

abbrev pub frame_item : ℕ → FrameItem
frame_item byte = record {
  phy_payload = byte ∷ [];
  tx_info = record {
    board = 0;
    antenna = 0;
    context = [];
    frequency = 868100000;
    power = pos 14;
    modulation_info = no_modulation;
    timing = some (delay 1000000000);
  };
}

abbrev sample_frame : DownlinkFrame
sample_frame = record {
  token = 123;
  dev_eui = some 42;
  device_queue_item_id = 2;
  multicast_group_id = none;
  multicast_queue_item_id = 0;
  downlink_frame = record {
    gateway_id = 9;
    token = 123;
    downlink_id = [];
    items = frame_item 1 ∷ frame_item 2 ∷ [];
  };
  routing_profile_id = 3;
  encrypted_f_opts = false;
  nwk_s_enc_key = 11;
}

abbrev sample_store : Store
sample_store = record {
  database = record { device_queue = two_items; multicast_queue = [] };
  sessions = (42, sample_session) ∷ [];
  frames = (123, sample_frame) ∷ [];
  messages = [];
}

abbrev app_payload : MacPayload
app_payload = record {
  dev_addr = 16909060;
  f_cnt = 7;
  f_port = some 2;
  f_opts = [];
  frm_payload = some (1 ∷ 2 ∷ 3 ∷ []) ∷ [];
}

abbrev sample_ack_env : Env
sample_ack_env = record {
  now = 1000;
  unmarshal_binary = λ b. record {
    complete = true;
    m_type = unconfirmed_data_down;
    mac_payload = some app_payload;
  };
  decrypt_frm_payload_ok = λ k b. true;
  decrypt_f_opts_ok = λ k b. true;
  marshal_ok = λ k b. true;
  status_value = λ s. some (refused 6);
  device_exists = λ e. true;
  device_profile = λ p. some sample_device_profile;
  as_client_ok = λ p. true;
  gateway_ok = λ f. true;
}

abbrev refused_ack : TxAck
refused_ack = record { token = 123; downlink_id = []; error = "TX_FREQ"; items = [] }

refused_ack-status : ack_status sample_ack_env refused_ack ≡ ok (refused 6)
unfolding ack_status
refused_ack-status = refl

handle_downlink_tx_ack-refused_example :
    ((handle_downlink_tx_ack sample_ack_env refused_ack sample_store).0.database.device_queue
      ≡ two_items)
    × ((handle_downlink_tx_ack sample_ack_env refused_ack sample_store).0.sessions
        ≡ (42, sample_session) ∷ [])
handle_downlink_tx_ack-refused_example =
    handle_downlink_tx_ack-refused sample_ack_env refused_ack sample_store 6 refused_ack-status

sample_store-frame : lookup (u16 123) sample_store.frames ≡ some sample_frame
unfolding lookup
sample_store-frame = refl

handle_downlink_tx_ack-legacy_two_example :
    handle_downlink_tx_ack sample_ack_env refused_ack sample_store ≡ (
      record sample_store {
        frames = insert 123 (with_items sample_frame (frame_item 2 ∷ [])) sample_store.frames;
      },
      none,
    )
handle_downlink_tx_ack-legacy_two_example =
    handle_downlink_tx_ack-legacy_two sample_ack_env refused_ack sample_store 6 sample_frame
      (frame_item 1) (frame_item 2) refl refl refused_ack-status sample_store-frame refl refl

-- The first window is refused, the second one accepted.
item_status-Chosen_example :
    let ss = refused 6 ∷ accepted ∷ [] in
    let items = frame_item 1 ∷ frame_item 2 ∷ [] in
    (i : FrameItem) × (k : ℕ) × (acknowledged_item ss items ≡ some i)
    × Chosen ss items i (item_status (refused 0) ss) k
item_status-Chosen_example =
    item_status-Chosen (refused 0) (refused 6) (accepted ∷ []) (frame_item 1 ∷ frame_item 2 ∷ [])
      (omega arith)

-- The state after the frame was decoded as one of the type.
abbrev decoded_as : MType → State
decoded_as t = (
  record (ack_context refused_ack accepted) {
    frame = sample_frame;
    frame_item = frame_item 1;
    m_type = t;
    mac_payload = some app_payload;
  },
  sample_store,
)

sample-IsKnown : (t : MType) → IsKnown sample_ack_env (decoded_as t) sample_session (queued 2 7)
unfolding lookup get_device_queue_item find_item
sample-IsKnown t = record { device = refl; session = refl; queued = refl }

transaction-unconfirmed_example :
    let s = decoded_as unconfirmed_data_down in
    transaction (for_application_payload (application_tasks sample_ack_env) ∷ []) s
    ≡ settled sample_ack_env s
        (loaded s.0 sample_session (queued 2 7))
        (record two_items { rows = remove_if (λ i. i.id == 2) two_items.rows })
transaction-unconfirmed_example =
    transaction-unconfirmed sample_ack_env (decoded_as unconfirmed_data_down) sample_session
      (queued 2 7) refl refl (sample-IsKnown unconfirmed_data_down)

transaction-confirmed_example :
    let s = decoded_as confirmed_data_down in
    let c =
      confirmed_context sample_ack_env s.0 sample_session (queued 2 7) sample_device_profile in
    transaction (for_application_payload (application_tasks sample_ack_env) ∷ []) s
    ≡ settled sample_ack_env s c
        (record two_items { rows = update_rows c.queue_item two_items.rows })
transaction-confirmed_example =
    transaction-confirmed sample_ack_env (decoded_as confirmed_data_down) sample_session
      (queued 2 7) sample_device_profile refl refl (sample-IsKnown confirmed_data_down) refl
