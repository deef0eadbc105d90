-- ===== src/Downlink/NextItem/Loop.antt =====
-- getNextDeviceQueueItem: the loop ends.
use chirpstack_network_serve.Prelude.{
  ℕ, zero, suc, ◌+◌, ◌*◌, ◌≤◌, ◌<◌, ◌≡◌, refl, ap, sym, subst, Bool, true, false, not, none, some,
  List, [], ◌∷◌, map, ok, arith, ◌==◌, ◌!=◌, if_rule, if_cases, Bool-cases, Option-cases,
  Result-cases, List-cases, inl, inr, length, All, All-mono, All-every,
}
use chirpstack_network_serve.Queue.{Item, Table, get_next_device_queue_item, flush_device_queue}
use chirpstack_network_serve.Queue.Order.{IsSorted}
use chirpstack_network_serve.Downlink.NextItem.{
  Reading, ReEncrypted, Outcome, not_acknowledged, item_size, requeue, re_sync, re_encrypted_item,
  reset_item, go_on, handle_unusable, next_item, is_usable, expected_f_cnt, timed_out, too_large,
  emit_past,
}
use chirpstack_network_serve.Downlink.NextItem.Requeue.{
  items_of, holds_f_cnt, OfDevice, create_all-All,
}
use chirpstack_network_serve.Downlink.NextItem.Future.{emit_past-Keeps}
use chirpstack_network_serve.Downlink.NextItem.Rank.{
  rank, rank_bound, IsNumbered, re_encrypted-above, re_encrypted-OfDevice, length-map,
  All-reset_item,
}
use chirpstack_network_serve.Downlink.NextItem.Ends.{
  Ends, Renumbers, Nearer, drop_item-Ends, requeue-Ends, flushed, items_of-IsSorted,
  items_of-OfDevice, create_all-Refilled,
}
use chirpstack_network_serve.Downlink.NextItem.Usable.{Usable, next_item-Usable}

-- A queue of which the first item is in step.
rank_in_step :
    (r : Reading) (is : List Item)
    → ((x : Item) (xs : List Item) → is ≡ x ∷ xs → x.f_cnt ≡ expected_f_cnt r.session)
    → rank r is ≤ 3 * length is + 1
rank_in_step r [] h = omega arith
rank_in_step r (x ∷ xs) h = let e = h x xs refl in ground (arith, e)

rank_future :
    (r : Reading) (is : List Item)
    → ((x : Item) (xs : List Item) → is ≡ x ∷ xs → x.f_cnt ≡ expected_f_cnt r.session)
    → All (λ i. emit_past r i ≡ false) is
    → rank r is ≤ 3 * length is
rank_future r [] h a = omega arith
rank_future r (x ∷ xs) h a = let e = h x xs refl in let b = a.0 in ground (arith, e, b)

re_encrypted-holds :
    (r : Reading) (s : ℕ) (xs : List ReEncrypted)
    → 0 < length xs
    → IsNumbered s xs
    → holds_f_cnt s (map (re_encrypted_item r.session) xs) ≡ true
re_encrypted-holds r s [] l n = absurd (omega arith)
re_encrypted-holds r s (x ∷ xs) l n = ground (arith, n.0)

re_sync-Ends :
    (r : Reading) (t : Table) (qi : Item) (qs : List Item) (rest : Table → Outcome)
    → Renumbers r
    → items_of r t ≡ qi ∷ qs
    → qi.f_cnt == expected_f_cnt r.session ≡ false
    → Nearer r (qi ∷ qs) rest
    → Ends (re_sync r t (r.app.re_encrypt (expected_f_cnt r.session) (items_of r t)) rest)
unfolding re_sync
re_sync-Ends r t qi qs rest n q f near =
    let s = expected_f_cnt r.session in
    let answer = r.app.re_encrypt s (items_of r t) in
    elim (Option-cases answer) [
      | inl e ↦ subst (λ a. Ends (re_sync r t a rest)) (sym e) (λ h. absurd (ground (arith, h)))
      | inr (xs, e) ↦
          subst (λ a. Ends (re_sync r t a rest)) (sym e)
            (let items = map (re_encrypted_item r.session) xs in
              let (len, numbered) = n.numbered s (items_of r t) xs e in
              let items_len : length (items_of r t) ≡ length (qi ∷ qs) = ap length q in
              let len' : length xs ≡ length qs + 1 = omega (arith, len, items_len) in
              let d = re_encrypted-OfDevice r xs in
              let a = re_encrypted-above r s s xs (omega arith) numbered in
              let c = re_encrypted-holds r s xs (omega (arith, len')) numbered in
              requeue-Ends r t items rest (λ u h.
                let full = create_all-Refilled r t u items d a c h in
                let small = rank_in_step r (items_of r u) full.1 in
                let mapped = length-map (re_encrypted_item r.session) xs in
                let here : rank r (qi ∷ qs) ≡ 3 * (length qs + 1) + 2 = ground (arith, f) in
                near u (omega (arith, small, full.0, mapped, len', here))))
    ]

reset-Ends :
    (r : Reading) (t : Table) (qi : Item) (qs : List Item) (rest : Table → Outcome)
    → items_of r t ≡ qi ∷ qs
    → qi.f_cnt == expected_f_cnt r.session ≡ true
    → emit_past r qi ≡ true
    → Nearer r (qi ∷ qs) rest
    → Ends (go_on (requeue r t (map reset_item (items_of r t))) rest)
reset-Ends r t qi qs rest q f p near =
    let s = expected_f_cnt r.session in
    let items = map reset_item (qi ∷ qs) in
    let sorted : IsSorted (qi ∷ qs) = subst IsSorted q (items_of-IsSorted r t) in
    let device : OfDevice r (qi ∷ qs) = subst (OfDevice r) q (items_of-OfDevice r t) in
    let d : OfDevice r items =
      All-reset_item (λ i. i.dev_eui ≡ r.session.dev_eui) (λ i. i.dev_eui ≡ r.session.dev_eui)
        (qi ∷ qs) (λ i k. k) device in
    let head : s ≤ qi.f_cnt = ground (arith, f) in
    let a : All (λ i. s ≤ i.f_cnt) items =
      All-reset_item (λ i. s ≤ i.f_cnt) (λ i. s ≤ i.f_cnt) (qi ∷ qs) (λ i k. k)
        (head, All-mono qs (λ x k. omega (arith, k, head)) sorted.0) in
    let c : holds_f_cnt s items ≡ true = ground (arith, f) in
    subst (λ x. Ends (go_on (requeue r t (map reset_item x)) rest)) (sym q)
      (requeue-Ends r t items rest (λ u h.
        let full = create_all-Refilled r t u items d a c h in
        let none_past =
          create_all-All r (λ i. emit_past r i ≡ false) (λ i. i.emit_at_time_since_gps_epoch ≡ none)
            (flush_device_queue t r.session.dev_eui) u items (emit_past-Keeps r) d
            (subst (All (λ i. emit_past r i ≡ false)) (sym (flushed r t)) tt)
            (All-reset_item (λ i. Unit {0}) (λ i. i.emit_at_time_since_gps_epoch ≡ none) (qi ∷ qs)
              (λ i k. refl) (All-every (λ i. Unit {0}) (qi ∷ qs) (λ i. tt)))
            h in
        let small = rank_future r (items_of r u) full.1 none_past in
        let len = length-map reset_item (qi ∷ qs) in
        let here : rank r (qi ∷ qs) ≡ 3 * (length qs + 1) + 1 = ground (arith, f, p) in
        near u (omega (arith, small, full.0, len, here))))

handle_unusable-Ends :
    (r : Reading) (t : Table) (qi : Item) (qs : List Item) (rest : Table → Outcome)
    → Renumbers r
    → items_of r t ≡ qi ∷ qs
    → is_usable r qi ≡ false
    → Nearer r (qi ∷ qs) rest
    → Ends (handle_unusable r t qi rest)
unfolding handle_unusable is_usable
handle_unusable-Ends r t qi qs rest n q u near =
    let s = expected_f_cnt r.session in
    if_rule Ends (not r.app.client_ok) (λ h. absurd (ground (arith, h)))
      (if_cases Ends (timed_out r qi)
        (λ a.
          drop_item-Ends r t qi qs (not_acknowledged qi.f_cnt) (r.app.ack_ok qi.f_cnt) rest q near)
        (λ a.
          if_cases Ends (too_large r qi)
            (λ b.
              drop_item-Ends r t qi qs (item_size qi.f_cnt) (r.app.error_ok qi.f_cnt) rest q near)
            (λ b.
              if_cases Ends (qi.f_cnt != s)
                (λ c. re_sync-Ends r t qi qs rest n q (ground (arith, c)) near)
                (λ c.
                  if_cases Ends (emit_past r qi)
                    (λ d. reset-Ends r t qi qs rest q (ground (arith, c)) d near)
                    (λ d. absurd (ground (arith, u, a, b, c, d)))))))

get_next-head :
    (r : Reading) (t : Table) (p : Item × Bool)
    → get_next_device_queue_item t r.session.dev_eui r.now ≡ ok p
    → (qs : List Item) × (items_of r t ≡ p.0 ∷ qs)
unfolding get_next_device_queue_item
get_next-head r t p h = elim (List-cases (items_of r t)) [
  | inl e ↦ absurd (ground (arith, e, h))
  | inr (x, xs, e) ↦
      let same : x ≡ p.0 = ground (arith, e, h) in (xs, subst (λ y. items_of r t ≡ y ∷ xs) same e)
]

next_item-Ends :
    (fuel : ℕ) (r : Reading) (t : Table)
    → Renumbers r
    → rank r (items_of r t) < fuel
    → Ends (next_item fuel r t)
unfolding next_item
next_item-Ends zero r t n l = absurd (omega arith)
next_item-Ends (suc fuel) r t n l =
    let rest : Table → Outcome = λ u. next_item fuel r u in
    elim (Result-cases (get_next_device_queue_item t r.session.dev_eui r.now)) [
      | inr (e, eq) ↦
          let at : next_item (suc fuel) r t ≡ (t, ([], ok none)) = ground (arith, eq) in
          subst Ends (sym at) (λ h. absurd (ground (arith, h)))
      | inl (p, eq) ↦
          let (qs, q) = get_next-head r t p eq in
          elim (Bool-cases (is_usable r p.0)) [
            | inl u ↦
                let at : next_item (suc fuel) r t ≡ (t, ([], ok (some p))) =
                  ground (arith, eq, u) in
                subst Ends (sym at) (λ h. absurd (ground (arith, h)))
            | inr u ↦
                let at : next_item (suc fuel) r t ≡ handle_unusable r t p.0 rest =
                  ground (arith, eq, u) in
                let l' : rank r (p.0 ∷ qs) < suc fuel = subst (λ x. rank r x < suc fuel) q l in
                let nearer : Nearer r (p.0 ∷ qs) rest =
                  λ v k. next_item-Ends fuel r v n (omega (arith, l', k)) in
                subst Ends (sym at) (handle_unusable-Ends r t p.0 qs rest n q u nearer)
          ]
    ]

-- The loop of getNextDeviceQueueItem ends: more fuel than three times the length of the device's
-- queue, and two, is enough, where the application-server's answer has the length of the queue and
-- is numbered from the expected frame-counter on. An item that is returned is the head of the
-- queue that is left, has the expected frame-counter, has not timed out, fits, and is not to be
-- emitted in the past.
pub next_item_terminates :
    (fuel : ℕ) (r : Reading) (t : Table)
    → Renumbers r
    → 3 * length (items_of r t) + 2 < fuel
    → Ends (next_item fuel r t) × Usable r (next_item fuel r t)
next_item_terminates fuel r t n l = (
  next_item-Ends fuel r t n (omega (arith, rank_bound r (items_of r t), l)),
  next_item-Usable fuel r t,
)
