-- ===== src/Downlink/NextItem/Usable.antt =====
-- getNextDeviceQueueItem: which item it returns.
use chirpstack_network_serve.Prelude.{
  ℕ, zero, suc, ◌≡◌, sym, subst, Bool, true, false, not, Option, none, some, List, [], ◌∷◌, map,
  Result, ok, err, arith, ◌!=◌, if_rule, Bool-cases, Result-cases, inl, inr,
}
use chirpstack_network_serve.Queue.{
  Item, Table, get_next_device_queue_item, get_device_queue_items, delete_device_queue_item,
}
use chirpstack_network_serve.Downlink.NextItem.{
  Reading, Error, queue, app_server, Outcome, Notice, not_acknowledged, item_size, ReEncrypted,
  re_sync, queue, app_server, is_usable, requeue, re_encrypted_item, reset_item, drop_item, go_on,
  handle_unusable, next_item, expected_f_cnt, timed_out, too_large, emit_past,
}

-- The item is the head of the queue that is left, and can be sent.
pub record Sendable (r : Reading) (u : Table) (qi : Item) (more : Bool) : Type 0 where
  pub next : get_next_device_queue_item u r.session.dev_eui r.now ≡ ok (qi, more)
  pub in_step : qi.f_cnt ≡ expected_f_cnt r.session
  pub in_time : timed_out r qi ≡ false
  pub fits : too_large r qi ≡ false
  pub not_past : emit_past r qi ≡ false

abbrev pub Found : Reading → Table → Result Error (Option (Item × Bool)) → Type 0
Found r u (err e) = Unit
Found r u (ok none) = Unit
Found r u (ok (some (qi, more))) = Sendable r u qi more

is_usable-Sendable :
    (r : Reading) (u : Table) (qi : Item) (more : Bool)
    → is_usable r qi ≡ true
    → get_next_device_queue_item u r.session.dev_eui r.now ≡ ok (qi, more)
    → Sendable r u qi more
unfolding is_usable
is_usable-Sendable r u qi more h n = record {
  next = n;
  in_step = ground (arith, h);
  in_time = ground (arith, h);
  fits = ground (arith, h);
  not_past = ground (arith, h);
}

abbrev pub Usable : Reading → Outcome → Type 0
Usable r o = Found r o.0 o.1.1

Usable-drop_item :
    (r : Reading) (t : Table) (qi : Item) (notice : Notice) (sent : Bool) (rest : Table → Outcome)
    → ((u : Table) → Usable r (rest u))
    → Usable r (drop_item t qi notice sent rest)
unfolding drop_item
Usable-drop_item r t qi notice sent rest h =
    elim (Result-cases (delete_device_queue_item t qi.id)) [
      | inr (e, eq) ↦
          let at : drop_item t qi notice sent rest ≡ (t, ([], err (queue e))) =
            ground (arith, eq) in
          subst (Usable r) (sym at) tt
      | inl (u, eq) ↦ elim (Bool-cases sent) [
        | inl s ↦
            let at : drop_item t qi notice sent rest
                ≡ ((rest u).0, (notice ∷ (rest u).1.0, (rest u).1.1)) =
              ground (arith, eq, s) in
            subst (Usable r) (sym at) (h u)
        | inr s ↦
            let at : drop_item t qi notice sent rest ≡ (u, ([], err app_server)) =
              ground (arith, eq, s) in
            subst (Usable r) (sym at) tt
      ]
    ]

Usable-go_on :
    (r : Reading) (p : Table × Result Error (Unit {0})) (rest : Table → Outcome)
    → ((u : Table) → Usable r (rest u))
    → Usable r (go_on p rest)
unfolding go_on
Usable-go_on r (u, ok done) rest h = h u
Usable-go_on r (u, err e) rest h = tt

Usable-re_sync :
    (r : Reading) (t : Table) (answer : Option (List ReEncrypted)) (rest : Table → Outcome)
    → ((u : Table) → Usable r (rest u))
    → Usable r (re_sync r t answer rest)
unfolding re_sync
Usable-re_sync r t none rest h = tt
Usable-re_sync r t (some items) rest h =
    Usable-go_on r (requeue r t (map (re_encrypted_item r.session) items)) rest h

Usable-handle_unusable :
    (r : Reading) (t : Table) (qi : Item) (rest : Table → Outcome)
    → ((u : Table) → Usable r (rest u))
    → Usable r (handle_unusable r t qi rest)
unfolding handle_unusable
Usable-handle_unusable r t qi rest h =
    let items = get_device_queue_items t r.session.dev_eui in
    if_rule (Usable r) (not r.app.client_ok) tt (
      if_rule (Usable r) (timed_out r qi)
        (Usable-drop_item r t qi (not_acknowledged qi.f_cnt) (r.app.ack_ok qi.f_cnt) rest h)
        (if_rule (Usable r) (too_large r qi)
          (Usable-drop_item r t qi (item_size qi.f_cnt) (r.app.error_ok qi.f_cnt) rest h)
          (if_rule (Usable r) (qi.f_cnt != expected_f_cnt r.session)
            (Usable-re_sync r t (r.app.re_encrypt (expected_f_cnt r.session) items) rest h)
            (if_rule (Usable r) (emit_past r qi)
              (Usable-go_on r (requeue r t (map reset_item items)) rest h) (h t)))))

pub next_item-Usable : (fuel : ℕ) (r : Reading) (t : Table) → Usable r (next_item fuel r t)
unfolding next_item
next_item-Usable zero r t = tt
next_item-Usable (suc fuel) r t =
    let ih : (u : Table) → Usable r (next_item fuel r u) = λ u. next_item-Usable fuel r u in
    elim (Result-cases (get_next_device_queue_item t r.session.dev_eui r.now)) [
      | inr (e, eq) ↦
          let at : next_item (suc fuel) r t ≡ (t, ([], ok none)) = ground (arith, eq) in
          subst (Usable r) (sym at) tt
      | inl (q, eq) ↦ elim (Bool-cases (is_usable r q.0)) [
        | inl u ↦
            let at : next_item (suc fuel) r t ≡ (t, ([], ok (some q))) = ground (arith, eq, u) in
            subst (Usable r) (sym at) (is_usable-Sendable r t q.0 q.1 u eq)
        | inr u ↦
            let at : next_item (suc fuel) r t ≡ handle_unusable r t q.0 (λ u. next_item fuel r u) =
              ground (arith, eq, u) in
            subst (Usable r) (sym at) (Usable-handle_unusable r t q.0 (λ u. next_item fuel r u) ih)
      ]
    ]
