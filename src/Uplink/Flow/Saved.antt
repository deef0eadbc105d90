-- ===== src/Uplink/Flow/Saved.antt =====
-- The session that the tasks of internal/uplink/data/data.go save.
use chirpstack_network_serve.Prelude.{
  ◌+◌, ◌≡◌, refl, ap, ◌∙◌, sym, true, false, Option, some, List, [], ◌∷◌, ◌++◌, u32, arith, All,
  map, none, Bool-cases, Option-cases, List-cases, inl, inr,
}
use chirpstack_network_serve.Lorawan.{MacCommand}
use chirpstack_network_serve.SessionData.{DeviceSession}
use chirpstack_network_serve.Session.History.{append_uplink_history}
use chirpstack_network_serve.MacCommand.Handle.Context.{Context, context_of}
use chirpstack_network_serve.Uplink.Commands.{handle_uplink_mac_commands}
use chirpstack_network_serve.Uplink.Commands.Handling.{handle_uplink_mac_commands_lem}
use chirpstack_network_serve.Uplink.Flow.{
  UplinkContext, Task, Setting, set_adr, set_uplink_data_rate, set_beacon_locked, handle_commands,
  handle_f_opts_mac_commands, handle_frm_payload_mac_commands, append_meta_data_to_uplink_history,
  send_frm_payload_to_application_server, application_data, command_of, sync_uplink_f_cnt,
  run_tasks, session_tasks, start, saved_session,
}

-- The context of the session without its uplink counter, its history and the envelope of the AppSKey:
-- those change.
abbrev without_counter : Context → Context
without_counter c = record c {
  uplink_history = [];
  keys = (c.keys.0, c.keys.1, c.keys.2, none);
  f_cnts = (0, c.f_cnts.1, c.f_cnts.2, c.f_cnts.3);
}

abbrev pub kept : DeviceSession → Context
kept s = without_counter (context_of s)

-- The task keeps that part.
abbrev KeepsContext : Task → Type 0
KeepsContext t = (ctx : UplinkContext) → kept (t ctx).0.session ≡ kept ctx.session

handle_commands-kept :
    (st : Setting) (cs : List (Option MacCommand)) (ctx : UplinkContext)
    → kept (handle_commands st cs ctx).session ≡ kept ctx.session
handle_commands-kept st cs ctx =
    elim (Option-cases (handle_uplink_mac_commands st.env st.calls ctx.session cs)) [
      | inl e ↦ rw (e, handle_commands) refl
      | inr (r, e) ↦
          rw (e, handle_commands)
            (ap without_counter
              (handle_uplink_mac_commands_lem st.env st.calls ctx.session cs r.0 r.1 e).0)
    ]

module _ (st : Setting) where
  set_uplink_data_rate-KeepsContext : KeepsContext (set_uplink_data_rate st)
  unfolding set_uplink_data_rate
  set_uplink_data_rate-KeepsContext ctx = ground arith

  set_beacon_locked-KeepsContext : KeepsContext (set_beacon_locked st)
  unfolding set_beacon_locked
  set_beacon_locked-KeepsContext ctx = ground arith

  handle_f_opts_mac_commands-KeepsContext : KeepsContext (handle_f_opts_mac_commands st)
  unfolding handle_f_opts_mac_commands
  handle_f_opts_mac_commands-KeepsContext ctx = elim (List-cases st.frame.f_opts) [
    | inl e ↦ rw e refl
    | inr (c, cs, e) ↦ rw e (handle_commands-kept st (c ∷ cs) ctx)
  ]

  handle_frm_payload_mac_commands-KeepsContext : KeepsContext (handle_frm_payload_mac_commands st)
  unfolding handle_frm_payload_mac_commands
  handle_frm_payload_mac_commands-KeepsContext ctx = elim (List-cases st.frame.frm_payload) [
    | inl e ↦ ground (arith, e)
    | inr (c, cs, e) ↦ ground (arith, e, handle_commands-kept st (map command_of (c ∷ cs)) ctx)
  ]

  append_meta_data_to_uplink_history-KeepsContext :
      KeepsContext (append_meta_data_to_uplink_history st)
  unfolding append_meta_data_to_uplink_history append_uplink_history
  append_meta_data_to_uplink_history-KeepsContext ctx = refl

  send_frm_payload_to_application_server-KeepsContext :
      KeepsContext (send_frm_payload_to_application_server st)
  unfolding send_frm_payload_to_application_server
  send_frm_payload_to_application_server-KeepsContext ctx =
      elim (Option-cases (application_data st.frame)) [
        | inl e ↦ ground (arith, e)
        | inr (bytes, e) ↦ ground (arith, e)
      ]

  sync_uplink_f_cnt-KeepsContext : KeepsContext (sync_uplink_f_cnt st)
  unfolding sync_uplink_f_cnt
  sync_uplink_f_cnt-KeepsContext ctx = refl

run_tasks-KeepsContext : (ts : List Task) → All KeepsContext ts → KeepsContext (run_tasks ts)
unfolding run_tasks
run_tasks-KeepsContext [] a ctx = refl
run_tasks-KeepsContext (t ∷ ts) a ctx = elim (Bool-cases (t ctx).1) [
  | inl e ↦ rw e (run_tasks-KeepsContext ts a.1 (t ctx).0 ∙ a.0 ctx)
  | inr e ↦ rw e (a.0 ctx)
]

run_tasks-synced :
    (st : Setting) (ts : List Task) (ctx : UplinkContext)
    → (run_tasks (ts ++ sync_uplink_f_cnt st ∷ []) ctx).1 ≡ true
    → (run_tasks (ts ++ sync_uplink_f_cnt st ∷ []) ctx).0.session.f_cnt_up
      ≡ u32 (st.frame.f_cnt + 1)
unfolding run_tasks sync_uplink_f_cnt
run_tasks-synced st [] ctx h = refl
run_tasks-synced st (t ∷ ts) ctx h = elim (Bool-cases (t ctx).1) [
  | inl e ↦
      let h' : (run_tasks (ts ++ sync_uplink_f_cnt st ∷ []) (t ctx).0).1 ≡ true = rw e at h in
      rw e (run_tasks-synced st ts (t ctx).0 h')
  | inr e ↦ absurd (ground (arith, e))
]

-- The last two tasks.
abbrev pub last_tasks : Setting → List Task
last_tasks st = send_frm_payload_to_application_server st ∷ sync_uplink_f_cnt st ∷ []

-- After any other tasks, they leave no envelope.
run_tasks-sent :
    (st : Setting) (ts : List Task) (ctx : UplinkContext)
    → (run_tasks (ts ++ last_tasks st) ctx).1 ≡ true
    → (run_tasks (ts ++ last_tasks st) ctx).0.session.app_s_key_envelope ≡ none
unfolding run_tasks sync_uplink_f_cnt send_frm_payload_to_application_server
run_tasks-sent st [] ctx h = elim (Option-cases (application_data st.frame)) [
  | inl e ↦ absurd (ground (arith, e))
  | inr (bytes, e) ↦ ground (arith, e)
]
run_tasks-sent st (t ∷ ts) ctx h = elim (Bool-cases (t ctx).1) [
  | inl e ↦
      let h' : (run_tasks (ts ++ last_tasks st) (t ctx).0).1 ≡ true = rw e at h in
      rw e (run_tasks-sent st ts (t ctx).0 h')
  | inr e ↦ absurd (ground (arith, e))
]

run_tasks-adr :
    (st : Setting) (ds : DeviceSession)
    → kept (run_tasks (session_tasks st) (start ds)).0.session
      ≡ kept (record ds { adr = st.frame.adr })
unfolding run_tasks set_adr
run_tasks-adr st ds =
    run_tasks-KeepsContext
      (set_uplink_data_rate st
        ∷ set_beacon_locked st
        ∷ handle_f_opts_mac_commands st
        ∷ handle_frm_payload_mac_commands st
        ∷ append_meta_data_to_uplink_history st
        ∷ send_frm_payload_to_application_server st
        ∷ sync_uplink_f_cnt st
        ∷ [])
      (
        set_uplink_data_rate-KeepsContext st,
        (
          set_beacon_locked-KeepsContext st,
          (
            handle_f_opts_mac_commands-KeepsContext st,
            (
              handle_frm_payload_mac_commands-KeepsContext st,
              (
                append_meta_data_to_uplink_history-KeepsContext st,
                (
                  send_frm_payload_to_application_server-KeepsContext st,
                  (sync_uplink_f_cnt-KeepsContext st, tt),
                ),
              ),
            ),
          ),
        ),
      )
      (record (start ds) { session = record ds { adr = st.frame.adr } })

-- An uplink whose session is saved came from a device that is not disabled; the saved session
-- expects the counter after the frame's, has the ADR bit of the frame, holds no envelope of the
-- AppSKey any more, and has the identity, the network-session keys, the downlink counters and the
-- flags of the session that the flow started with.
pub saved_session_lem :
    (st : Setting) (ds saved : DeviceSession)
    → saved_session st ds ≡ some saved
    → (ds.is_disabled ≡ false)
      × (saved.f_cnt_up ≡ u32 (st.frame.f_cnt + 1))
      × (saved.app_s_key_envelope ≡ none)
      × (kept saved ≡ kept (record ds { adr = st.frame.adr }))
unfolding saved_session
saved_session_lem st ds saved h =
    let before : List Task =
      set_adr st
      ∷ set_uplink_data_rate st
      ∷ set_beacon_locked st
      ∷ handle_f_opts_mac_commands st
      ∷ handle_frm_payload_mac_commands st
      ∷ append_meta_data_to_uplink_history st
      ∷ [] in
    let body : List Task =
      set_adr st
      ∷ set_uplink_data_rate st
      ∷ set_beacon_locked st
      ∷ handle_f_opts_mac_commands st
      ∷ handle_frm_payload_mac_commands st
      ∷ append_meta_data_to_uplink_history st
      ∷ send_frm_payload_to_application_server st
      ∷ [] in
    let synced = run_tasks-synced st body (start ds) in
    let sent = run_tasks-sent st before (start ds) in
    let context = run_tasks-adr st ds in
    let done : (run_tasks (session_tasks st) (start ds)).1 ≡ true = ground arith in
    let same : (run_tasks (session_tasks st) (start ds)).0.session ≡ saved = ground arith in
    (
      ground arith,
      sym (ap (λ s. s.f_cnt_up) same) ∙ synced done,
      sym (ap (λ s. s.app_s_key_envelope) same) ∙ sent done,
      ap kept (sym same) ∙ context,
    )
