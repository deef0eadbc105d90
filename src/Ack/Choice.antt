-- ===== src/Ack/Choice.antt =====
-- internal/downlink/ack/ack.go: the item of the downlink that an acknowledgement is about.
use chirpstack_network_serve.Prelude.{
  ℕ, suc, ◌+◌, ◌≤◌, ◌≡◌, refl, ◌∙◌, false, some, List, [], ◌∷◌, arith, Bool-cases, Option-cases,
  inl, inr, length, get_elem?, take, All,
}
use chirpstack_network_serve.Gateway.{Status, FrameItem}
use chirpstack_network_serve.Ack.{is_accepted}
use chirpstack_network_serve.Ack.Tasks.{positive_item, acknowledged_item}
use chirpstack_network_serve.Ack.Flow.{item_status}

-- The position `k` has the item and the status, and no status before it is positive; a status that
-- is not positive is the last one.
pub record Chosen (ss : List Status) (items : List FrameItem) (i : FrameItem) (s : Status) (k : ℕ)
    : Type 0 where
  pub status_at : get_elem? ss k ≡ some s
  pub item_at : get_elem? items k ≡ some i
  pub before : All (λ x. is_accepted x ≡ false) (take k ss)
  pub last : is_accepted s ≡ false → k + 1 ≡ length ss

-- An acknowledgement with one status or more, and no more than the downlink has items: the item that
-- is taken stands where the status of the acknowledgement stands, which is at the first positive
-- status, or at the last one where none is positive.
pub item_status-Chosen :
    (start s : Status) (ss : List Status) (items : List FrameItem)
    → length (s ∷ ss) ≤ length items
    → (i : FrameItem) × (k : ℕ) × (acknowledged_item (s ∷ ss) items ≡ some i)
      × Chosen (s ∷ ss) items i (item_status start (s ∷ ss)) k
unfolding acknowledged_item positive_item item_status
item_status-Chosen start s ss [] h = absurd (omega arith)
item_status-Chosen start s [] (i ∷ is) h = (
  i,
  0,
  ground arith,
  record { status_at = ground arith; item_at = refl; before = tt; last = λ _. refl },
)
item_status-Chosen start s (s' ∷ ss) (i ∷ is) h = elim (Bool-cases (is_accepted s)) [
  | inl e ↦ (
    i,
    0,
    ground (arith, e),
    record {
      status_at = ground (arith, e);
      item_at = refl;
      before = tt;
      last = λ r. absurd (ground (arith, e, r));
    },
  )
  | inr e ↦
      let (j, k, item, c) = item_status-Chosen s s' ss is (omega arith) in
      let same : acknowledged_item (s ∷ s' ∷ ss) (i ∷ is) ≡ acknowledged_item (s' ∷ ss) is =
        elim (Option-cases (positive_item (s' ∷ ss) is)) [
          | inl p ↦ ground (arith, e, p)
          | inr (x, p) ↦ ground (arith, e, p)
        ] in
      (
        j,
        suc k,
        same ∙ item,
        record {
          status_at = ground (arith, e, c.status_at);
          item_at = c.item_at;
          before = (e, c.before);
          last = λ r.
              let r' : is_accepted (item_status s (s' ∷ ss)) ≡ false = ground (arith, e, r) in
              omega (arith, c.last r');
        },
      )
]
