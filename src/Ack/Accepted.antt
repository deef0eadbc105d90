-- ===== src/Ack/Accepted.antt =====
-- internal/downlink/ack/ack.go: the transaction for an accepted application payload.
use chirpstack_network_serve.Prelude.{
  ℕ, ◌+◌, ◌*◌, ◌++◌, u32, ◌≡◌, refl, sym, subst, ◌∙◌, true, Option, none, some, List, [], ◌∷◌, ok,
  arith, ◌==◌, if◌then◌else◌, Bool-cases, Option-cases, inl, inr,
}
use chirpstack_network_serve.Prelude.Assoc.{lookup, insert}
use chirpstack_network_serve.Gateway.{unconfirmed_data_down, confirmed_data_down}
use chirpstack_network_serve.Gps.{second}
use chirpstack_network_serve.Profile.{DeviceProfile}
use chirpstack_network_serve.SessionData.{DeviceSession}
use chirpstack_network_serve.Session.Boot.{MacVersion, lorawan_1_0, lorawan_1_1, get_mac_version}
use chirpstack_network_serve.Queue.{
  Item, Table, find_item, get_device_queue_item, has_id, remove_if, update_rows,
  update_device_queue_item, delete_device_queue_item,
}
use chirpstack_network_serve.Ack.{
  Error, application_server, Message, handle_tx_ack, Env, AckContext, State, Store, Task, run_tasks,
  when, for_application_payload, for_application, for_unconfirmed_downlink, for_confirmed_downlink,
  for_unconfirmed, for_confirmed, transaction,
}
use chirpstack_network_serve.Ack.Steps.{
  run_tasks-nil, run_tasks-done, run_tasks-fail, when-skip, when-run,
}
use chirpstack_network_serve.Ack.Tasks.{
  eui, lock_device, get_device_session, get_item, delete_item, get_device_profile, pending_item,
  set_device_queue_item_pending, set_device_session_conf_f_cnt, next_a_f_cnt_down,
  increment_a_f_cnt_down, save_device_session, send_tx_ack_to_application_server,
}
use chirpstack_network_serve.Ack.Flow.{application_tasks}

-- The device, its session and the item of the downlink are there.
pub record IsKnown (env : Env) (s : State) (ds : DeviceSession) (item : Item) : Type 0 where
  pub device : env.device_exists (eui s.0.frame.dev_eui) ≡ true
  pub session : lookup (eui s.0.frame.dev_eui) s.1.sessions ≡ some ds
  pub queued :
      get_device_queue_item s.1.database.device_queue s.0.frame.device_queue_item_id ≡ ok item

-- The context when the item's tasks begin.
abbrev pub loaded : AckContext → DeviceSession → Item → AckContext
loaded ctx ds item = record ctx { session = ds; queue_item = item }

find_item-has_id :
    (id : ℕ) (item : Item) (is : List Item)
    → find_item id is ≡ some item
    → (item.id ≡ id) × (has_id id is ≡ true)
unfolding find_item has_id
find_item-has_id id item [] h = absurd (ground arith)
find_item-has_id id item (i ∷ is) h = elim (Bool-cases (i.id == id)) [
  | inl e ↦ ground (arith, e, h)
  | inr e ↦ ground (arith, e, h, find_item-has_id id item is)
]

get_device_queue_item-has_id :
    (t : Table) (id : ℕ) (item : Item)
    → get_device_queue_item t id ≡ ok item
    → (item.id ≡ id) × (has_id id t.rows ≡ true)
unfolding get_device_queue_item
get_device_queue_item-has_id t id item h = elim (Option-cases (find_item id t.rows)) [
  | inl e ↦ absurd (ground (arith, e, h))
  | inr (i, e) ↦ find_item-has_id id item t.rows (ground (arith, e, h))
]

-- The session and the item are read, and the other tasks go on from there.
load_item :
    (env : Env) (ts : List Task) (s : State) (ds : DeviceSession) (item : Item)
    → IsKnown env s ds item
    → run_tasks (lock_device env ∷ get_device_session ∷ get_item ∷ ts) s
      ≡ run_tasks ts (loaded s.0 ds item, s.1)
unfolding lock_device get_device_session get_item
load_item env ts s ds item k =
    let u : State = (record s.0 { session = ds }, s.1) in
    run_tasks-done (lock_device env) _ s s (ground (arith, k.device))
    ∙ run_tasks-done get_device_session _ s u (ground (arith, k.session))
    ∙ run_tasks-done get_item ts u (loaded s.0 ds item, s.1) (ground (arith, k.queued))

-- The session with the counter of the downlink incremented: LoRaWAN 1.0 has one counter for all
-- downlinks, 1.1 has one for those of the application.
abbrev pub counted : DeviceSession → DeviceSession
counted ds = elim (get_mac_version ds) [
  | lorawan_1_0 ↦ record ds { n_f_cnt_down = u32 (ds.n_f_cnt_down + 1) }
  | lorawan_1_1 ↦ record ds { a_f_cnt_down = u32 (ds.a_f_cnt_down + 1) }
]

next_a_f_cnt_down-counted :
    (v : MacVersion) (ds : DeviceSession)
    → next_a_f_cnt_down v ds ≡ elim v [
      | lorawan_1_0 ↦ record ds { n_f_cnt_down = u32 (ds.n_f_cnt_down + 1) }
      | lorawan_1_1 ↦ record ds { a_f_cnt_down = u32 (ds.a_f_cnt_down + 1) }
    ]
next_a_f_cnt_down-counted lorawan_1_0 ds = refl
next_a_f_cnt_down-counted lorawan_1_1 ds = refl

-- The item waits for its confirmation: its own timeout stays, and an item without one times out when
-- the Class-C timeout of the device's profile has passed, or at once.
abbrev pub awaiting : Env → DeviceProfile → Item → Item
awaiting env dp item = record item {
  is_pending = true;
  timeout_after = some (elim item.timeout_after [
    | some t ↦ t
    | none ↦ if dp.supports_class_c then env.now + dp.class_c_timeout * second else env.now
  ]);
}

pending_item-awaiting :
    (env : Env) (ctx : AckContext) → pending_item env ctx ≡ awaiting env ctx.profile ctx.queue_item
unfolding pending_item
pending_item-awaiting env ctx = elim (Option-cases ctx.queue_item.timeout_after) [
  | inl e ↦ ground (arith, e)
  | inr (t, e) ↦ ground (arith, e)
]

-- The session is saved.
abbrev pub acknowledged : State → DeviceSession → State
acknowledged s ds =
    (record s.0 { session = ds }, record s.1 { sessions = insert ds.dev_eui ds s.1.sessions })

abbrev pub tx_ack : State → Message
tx_ack s =
    handle_tx_ack s.0.frame.dev_eui s.0.queue_item.f_cnt s.0.frame.downlink_frame.gateway_id
      s.0.frame_item.tx_info

-- A message is sent after the others.
abbrev pub told : Message → Store → Store
told m st = record st { messages = st.messages ++ m ∷ [] }

finish :
    (env : Env) (s : State)
    → let u = acknowledged s (counted s.0.session) in
      run_tasks
        (increment_a_f_cnt_down ∷ save_device_session ∷ send_tx_ack_to_application_server env ∷ [])
        s
      ≡ (if env.as_client_ok s.0.frame.routing_profile_id
          then ((u.0, told (tx_ack s) u.1), none)
          else (u, some application_server))
unfolding increment_a_f_cnt_down save_device_session send_tx_ack_to_application_server run_tasks
finish env s = elim (Bool-cases (env.as_client_ok s.0.frame.routing_profile_id)) [
  | inl e ↦ ground (arith, e, next_a_f_cnt_down-counted (get_mac_version s.0.session) s.0.session)
  | inr e ↦ ground (arith, e, next_a_f_cnt_down-counted (get_mac_version s.0.session) s.0.session)
]

-- The outcome of the transaction, for the context and the device-queue before the counter is
-- incremented: where the application-server's client cannot be had, the device-queue is what it was,
-- and the session is saved all the same.
abbrev pub settled : Env → State → AckContext → Table → State × Option Error
settled env s c t =
    let v : State = (c, record s.1 { database = record s.1.database { device_queue = t } }) in
    let u = acknowledged v (counted c.session) in
    if env.as_client_ok c.frame.routing_profile_id
    then ((u.0, told (tx_ack v) u.1), none)
    else ((u.0, record u.1 { database = s.1.database }), some application_server)

transaction-settled :
    (env : Env) (s : State) (c : AckContext) (t : Table)
    → for_application s.0 ≡ true
    → run_tasks (application_tasks env) s
      ≡ run_tasks
          (increment_a_f_cnt_down
            ∷ save_device_session
            ∷ send_tx_ack_to_application_server env
            ∷ [])
          (c, record s.1 { database = record s.1.database { device_queue = t } })
    → transaction (for_application_payload (application_tasks env) ∷ []) s ≡ settled env s c t
unfolding transaction for_application_payload when
transaction-settled env s c t a h =
    let v : State = (c, record s.1 { database = record s.1.database { device_queue = t } }) in
    let u = acknowledged v (counted c.session) in
    elim (Bool-cases (env.as_client_ok c.frame.routing_profile_id)) [
      | inl e ↦
          let run : run_tasks (for_application_payload (application_tasks env) ∷ []) s
              ≡ ((u.0, told (tx_ack v) u.1), none) =
            run_tasks-done (for_application_payload (application_tasks env)) [] s
              (u.0, told (tx_ack v) u.1)
              (when-run for_application (application_tasks env) s a
                ∙ h
                ∙ finish env v
                ∙ ground (arith, e))
            ∙ run_tasks-nil (u.0, told (tx_ack v) u.1) in
          ground (arith, run, e)
      | inr e ↦
          let run : run_tasks (for_application_payload (application_tasks env) ∷ []) s
              ≡ (u, some application_server) =
            run_tasks-fail (for_application_payload (application_tasks env)) [] s u
              application_server
              (when-run for_application (application_tasks env) s a
                ∙ h
                ∙ finish env v
                ∙ ground (arith, e)) in
          ground (arith, run, e)
    ]

-- The transaction for an accepted unconfirmed application payload, whose device, session and item are
-- known: the item is deleted, the counter of its downlinks (of all of them in LoRaWAN 1.0) goes up by one modulo
-- 2^32, the session is saved and the
-- application-server told. Where its client cannot be had, that is the error; the device-queue is then
-- what it was, and the session is saved all the same.
pub transaction-unconfirmed :
    (env : Env) (s : State) (ds : DeviceSession) (item : Item)
    → for_application s.0 ≡ true
    → s.0.m_type ≡ unconfirmed_data_down
    → IsKnown env s ds item
    → let t = s.1.database.device_queue in
      transaction (for_application_payload (application_tasks env) ∷ []) s
      ≡ settled env s
          (loaded s.0 ds item)
          (record t { rows = remove_if (λ i. i.id == s.0.frame.device_queue_item_id) t.rows })
unfolding application_tasks for_unconfirmed_downlink for_confirmed_downlink delete_item
    delete_device_queue_item
transaction-unconfirmed env s ds item a m k =
    let t = s.1.database.device_queue in
    let id = s.0.frame.device_queue_item_id in
    let t' = record t { rows = remove_if (λ i. i.id == id) t.rows } in
    let c = loaded s.0 ds item in
    let v : State = (c, record s.1 { database = record s.1.database { device_queue = t' } }) in
    let there = get_device_queue_item-has_id t id item k.queued in
    let deleted : delete_item (c, s.1) ≡ (v, none) = ground (arith, there.1) in
    transaction-settled env s c t' a (
      load_item env _ s ds item k
      ∙ run_tasks-done (for_unconfirmed_downlink (delete_item ∷ [])) _ (c, s.1) v
          (when-run for_unconfirmed (delete_item ∷ []) (c, s.1) (ground (arith, m))
            ∙ run_tasks-done delete_item [] (c, s.1) v deleted
            ∙ run_tasks-nil v)
      ∙ run_tasks-done
          (for_confirmed_downlink (
            get_device_profile env
            ∷ set_device_queue_item_pending env
            ∷ set_device_session_conf_f_cnt
            ∷ []))
          _ v v (when-skip for_confirmed _ v (ground (arith, m))))

-- The context after the tasks of a confirmed downlink.
abbrev pub confirmed_context : Env → AckContext → DeviceSession → Item → DeviceProfile → AckContext
confirmed_context env ctx ds item dp =
    let c = record (loaded ctx ds item) { profile = dp } in
    record c { queue_item = awaiting env dp item; session = record ds { conf_f_cnt = item.f_cnt } }

-- The transaction for an accepted confirmed application payload, whose device, session, item and
-- device-profile are known: the stored item is pending, and times out at its own timeout, if it has
-- one, or else now, for a Class-C device after the Class-C timeout of the profile from now on; its
-- frame-counter is the one to be confirmed, and the rest is as for an unconfirmed one.
pub transaction-confirmed :
    (env : Env) (s : State) (ds : DeviceSession) (item : Item) (dp : DeviceProfile)
    → for_application s.0 ≡ true
    → s.0.m_type ≡ confirmed_data_down
    → IsKnown env s ds item
    → env.device_profile ds.device_profile_id ≡ some dp
    → let t = s.1.database.device_queue in
      let c = confirmed_context env s.0 ds item dp in
      transaction (for_application_payload (application_tasks env) ∷ []) s
      ≡ settled env s c (record t { rows = update_rows c.queue_item t.rows })
unfolding application_tasks for_unconfirmed_downlink for_confirmed_downlink get_device_profile
    set_device_queue_item_pending set_device_session_conf_f_cnt update_device_queue_item
transaction-confirmed env s ds item dp a m k p =
    let t = s.1.database.device_queue in
    let l = loaded s.0 ds item in
    let lp = record l { profile = dp } in
    let c = confirmed_context env s.0 ds item dp in
    let t' = record t { rows = update_rows c.queue_item t.rows } in
    let st' = record s.1 { database = record s.1.database { device_queue = t' } } in
    let w : State = (record lp { queue_item = awaiting env dp item }, st') in
    let there = get_device_queue_item-has_id t s.0.frame.device_queue_item_id item k.queued in
    let here : has_id item.id t.rows ≡ true =
      subst (λ i. has_id i t.rows ≡ true) (sym there.0) there.1 in
    let ts =
      get_device_profile env
      ∷ set_device_queue_item_pending env
      ∷ set_device_session_conf_f_cnt
      ∷ [] in
    let pending : set_device_queue_item_pending env (lp, s.1) ≡ (w, none) =
      ground (arith, here, pending_item-awaiting env lp) in
    transaction-settled env s c t' a (
      load_item env _ s ds item k
      ∙ run_tasks-done (for_unconfirmed_downlink (delete_item ∷ [])) _ (l, s.1) (l, s.1)
          (when-skip for_unconfirmed _ (l, s.1) (ground (arith, m)))
      ∙ run_tasks-done (for_confirmed_downlink ts) _ (l, s.1) (c, st')
          (when-run for_confirmed ts (l, s.1) (ground (arith, m))
            ∙ run_tasks-done (get_device_profile env) _ (l, s.1) (lp, s.1) (ground (arith, p))
            ∙ run_tasks-done (set_device_queue_item_pending env) _ (lp, s.1) w pending
            ∙ run_tasks-done set_device_session_conf_f_cnt [] w (c, st') refl
            ∙ run_tasks-nil (c, st')))
