-- ===== src/Downlink/NextItem/Ends.antt =====
-- getNextDeviceQueueItem: one round of the loop.
use chirpstack_network_serve.Prelude.{
  ℕ, ◌≤◌, ◌<◌, ◌≡◌, ◌≢◌, refl, sym, subst, Bool, true, some, List, [], ◌∷◌, ok, err, arith, ◌==◌,
  if◌then◌else◌, Bool-cases, Result-cases, inl, inr, length, All, All-every,
}
use chirpstack_network_serve.Queue.{
  Item, Table, create_device_queue_item, remove_if, get_device_queue_items,
  delete_device_queue_item, flush_device_queue,
}
use chirpstack_network_serve.Queue.Order.{IsSorted, IsSorted-by_f_cnt, All-by_f_cnt}
use chirpstack_network_serve.Queue.Ids.{delete, flush, run}
use chirpstack_network_serve.Queue.Refines.{run-Refined}
use chirpstack_network_serve.Downlink.NextItem.{
  Reading, ReEncrypted, queue, app_server, out_of_fuel, Outcome, Notice, create_all, requeue,
  drop_item, go_on, expected_f_cnt,
}
use chirpstack_network_serve.Downlink.NextItem.Requeue.{
  items_of, holds_f_cnt, OfDevice, create_all-length, create_all-holds, create_all-All,
  at_least-Keeps,
}
use chirpstack_network_serve.Downlink.NextItem.Rank.{
  rank, rank_bound, length-remove_if, head_least, IsNumbered,
}

-- The loop did not run out of fuel.
abbrev pub Ends : Outcome → Type 0
Ends o = o.1.1 ≢ err out_of_fuel

-- The answer of ReEncryptDeviceQueueItems is as long as the queue, and numbered from the first
-- frame-counter on.
pub record Renumbers (r : Reading) : Type 0 where
  pub numbered :
      (s : ℕ) (items : List Item) (xs : List ReEncrypted)
      → r.app.re_encrypt s items ≡ some xs
      → (length xs ≡ length items) × IsNumbered s xs

-- The loop ends for each queue that is nearer to the end.
abbrev pub Nearer : Reading → List Item → (Table → Outcome) → Type 0
Nearer r q rest = (u : Table) → rank r (items_of r u) < rank r q → Ends (rest u)

deleted :
    (r : Reading) (t u : Table) (qi : Item) (qs : List Item)
    → items_of r t ≡ qi ∷ qs
    → delete_device_queue_item t qi.id ≡ ok u
    → length (items_of r u) ≤ length qs
unfolding run remove_if
deleted r t u qi qs q h =
    let e : items_of r u ≡ remove_if (λ i. i.id == qi.id) (items_of r t) =
      run-Refined (delete qi.id) t u r.session.dev_eui tt h in
    let f : items_of r u ≡ remove_if (λ i. i.id == qi.id) (qi ∷ qs) =
      subst (λ x. items_of r u ≡ remove_if (λ i. i.id == qi.id) x) q e in
    let g : items_of r u ≡ remove_if (λ i. i.id == qi.id) qs = ground (arith, f) in
    subst (λ x. length x ≤ length qs) (sym g) (length-remove_if (λ i. i.id == qi.id) qs)

pub drop_item-Ends :
    (r : Reading) (t : Table) (qi : Item) (qs : List Item) (n : Notice) (sent : Bool)
    (rest : Table → Outcome)
    → items_of r t ≡ qi ∷ qs
    → Nearer r (qi ∷ qs) rest
    → Ends (drop_item t qi n sent rest)
unfolding drop_item
drop_item-Ends r t qi qs n sent rest q near =
    elim (Result-cases (delete_device_queue_item t qi.id)) [
      | inr (x, e) ↦
          let at : drop_item t qi n sent rest ≡ (t, ([], err (queue x))) = ground (arith, e) in
          subst Ends (sym at) (λ h. absurd (ground (arith, h)))
      | inl (u, e) ↦ elim (Bool-cases sent) [
        | inr s ↦
            let at : drop_item t qi n sent rest ≡ (u, ([], err app_server)) =
              ground (arith, e, s) in
            subst Ends (sym at) (λ h. absurd (ground (arith, h)))
        | inl s ↦
            let at : drop_item t qi n sent rest ≡ ((rest u).0, (n ∷ (rest u).1.0, (rest u).1.1)) =
              ground (arith, e, s) in
            subst Ends (sym at)
              (near u (omega (arith, deleted r t u qi qs q e, rank_bound r (items_of r u))))
      ]
    ]

create_all-err :
    (r : Reading) (t : Table) (items : List Item) → (create_all r t items).1 ≢ err out_of_fuel
unfolding create_all
create_all-err r t [] h = absurd (ground (arith, h))
create_all-err r t (i ∷ is) h =
    elim (Result-cases (create_device_queue_item r.encrypt r.now r.device_profile r.session t i)) [
      | inl (u, e) ↦ create_all-err r u is (ground (arith, e, h))
      | inr (x, e) ↦ absurd (ground (arith, e, h))
    ]

pub requeue-Ends :
    (r : Reading) (t : Table) (items : List Item) (rest : Table → Outcome)
    → ((u : Table)
        → create_all r (flush_device_queue t r.session.dev_eui) items ≡ (u, ok tt)
        → Ends (rest u))
    → Ends (go_on (requeue r t items) rest)
unfolding requeue go_on
requeue-Ends r t items rest f =
    let filled = create_all r (flush_device_queue t r.session.dev_eui) items in
    elim (Result-cases filled.1) [
      | inl (d, e) ↦
          let at : go_on (requeue r t items) rest ≡ rest filled.0 = ground (arith, e) in
          subst Ends (sym at) (f filled.0 (ground (arith, e)))
      | inr (x, e) ↦
          let v = if r.db_in_transaction then filled.0 else t in
          let at : go_on (requeue r t items) rest ≡ (v, ([], err x)) = ground (arith, e) in
          subst Ends (sym at) (λ h.
            create_all-err r (flush_device_queue t r.session.dev_eui) items (ground (arith, e, h)))
    ]

pub flushed : (r : Reading) (t : Table) → items_of r (flush_device_queue t r.session.dev_eui) ≡ []
unfolding run
flushed r t =
    let u = flush_device_queue t r.session.dev_eui in
    ground (arith, run-Refined (flush r.session.dev_eui) t u r.session.dev_eui tt refl)

pub items_of-IsSorted : (r : Reading) (t : Table) → IsSorted (items_of r t)
unfolding get_device_queue_items
items_of-IsSorted r t = IsSorted-by_f_cnt t.tie r.session.dev_eui t.rows

pub items_of-OfDevice : (r : Reading) (t : Table) → OfDevice r (items_of r t)
unfolding get_device_queue_items
items_of-OfDevice r t =
    All-by_f_cnt t.tie (λ i. i.dev_eui ≡ r.session.dev_eui) r.session.dev_eui t.rows
      (All-every (λ i. i.dev_eui ≡ r.session.dev_eui → i.dev_eui ≡ r.session.dev_eui) t.rows
        (λ i k. k))

-- The queue is filled with items from the expected frame-counter on.
abbrev pub Refilled : Reading → Table → List Item → Type 0
Refilled r u items =
    (length (items_of r u) ≡ length items)
    × (((x : Item) (xs : List Item) → items_of r u ≡ x ∷ xs → x.f_cnt ≡ expected_f_cnt r.session))

pub create_all-Refilled :
    (r : Reading) (t u : Table) (items : List Item)
    → OfDevice r items
    → All (λ i. expected_f_cnt r.session ≤ i.f_cnt) items
    → holds_f_cnt (expected_f_cnt r.session) items ≡ true
    → create_all r (flush_device_queue t r.session.dev_eui) items ≡ (u, ok tt)
    → Refilled r u items
create_all-Refilled r t u items d a c h =
    let s = expected_f_cnt r.session in
    let v = flush_device_queue t r.session.dev_eui in
    let nothing = flushed r t in
    let len = create_all-length r v u items d h in
    let holds = create_all-holds r s v u items d h in
    let above =
      create_all-All r (λ i. s ≤ i.f_cnt) (λ i. s ≤ i.f_cnt) v u items (at_least-Keeps r s) d
        (subst (All (λ i. s ≤ i.f_cnt)) (sym nothing) tt) a h in
    (
      ground (arith, len, nothing),
      λ x xs e.
          let sorted : IsSorted (x ∷ xs) = subst IsSorted e (items_of-IsSorted r u) in
          let above' : All (λ i. s ≤ i.f_cnt) (x ∷ xs) = subst (All (λ i. s ≤ i.f_cnt)) e above in
          head_least s x xs sorted above'.0
            (subst (λ q. holds_f_cnt s q ≡ true) e (ground (arith, holds, nothing, c))),
    )
