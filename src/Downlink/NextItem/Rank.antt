-- ===== src/Downlink/NextItem/Rank.antt =====
-- getNextDeviceQueueItem: how far a queue is from the end of the loop.
use chirpstack_network_serve.Prelude.{
  ℕ, suc, ◌+◌, ◌*◌, ◌≤◌, ◌<◌, ◌≡◌, refl, ap, Bool, true, false, List, [], ◌∷◌, map, arith, ltb,
  ◌==◌, if◌then◌else◌, Bool-cases, inl, inr, length, All, All-mono,
}
use chirpstack_network_serve.Queue.{Item, remove_if}
use chirpstack_network_serve.Queue.Order.{IsSorted}
use chirpstack_network_serve.Downlink.NextItem.{
  Reading, ReEncrypted, emit_past, expected_f_cnt, re_encrypted_item, reset_item,
}
use chirpstack_network_serve.Downlink.NextItem.Requeue.{holds_f_cnt, OfDevice}

-- The first item is out of step, or else in the past, or neither.
abbrev pub head_rank : Reading → Item → ℕ
head_rank r i = if i.f_cnt == expected_f_cnt r.session then (if emit_past r i then 1 else 0) else 2

abbrev pub rank : Reading → List Item → ℕ
rank r [] = 0
rank r (i ∷ is) = 3 * (length is + 1) + head_rank r i

pub rank_bound : (r : Reading) (is : List Item) → rank r is ≤ 3 * length is + 2
rank_bound r [] = omega arith
rank_bound r (i ∷ is) = ground arith

pub length-remove_if :
    (test : Item → Bool) (is : List Item) → length (remove_if test is) ≤ length is
unfolding remove_if
length-remove_if test [] = omega arith
length-remove_if test (i ∷ is) = ground (arith, length-remove_if test is)

holds_f_cnt-above : (s : ℕ) (is : List Item) → All (λ i. s < i.f_cnt) is → holds_f_cnt s is ≡ false
holds_f_cnt-above s [] h = refl
holds_f_cnt-above s (i ∷ is) h = ground (arith, h.0, holds_f_cnt-above s is h.1)

-- The first item of a sorted queue has the least frame-counter.
pub head_least :
    (s : ℕ) (x : Item) (xs : List Item)
    → IsSorted (x ∷ xs)
    → s ≤ x.f_cnt
    → holds_f_cnt s (x ∷ xs) ≡ true
    → x.f_cnt ≡ s
head_least s x xs o l h = elim (Bool-cases (ltb s x.f_cnt)) [
  | inr e ↦ ground (arith, e, l)
  | inl e ↦
      let lt : s < x.f_cnt = ground (arith, e) in
      let above = holds_f_cnt-above s xs (All-mono xs (λ y k. omega (arith, k, lt)) o.0) in
      absurd (ground (arith, above, lt, h))
]

-- The frame-counters follow each other from `s` on.
abbrev pub IsNumbered : ℕ → List ReEncrypted → Type 0
IsNumbered s [] = Unit
IsNumbered s (x ∷ xs) = (x.f_cnt ≡ s) × IsNumbered (s + 1) xs

pub re_encrypted-above :
    (r : Reading) (s n : ℕ) (xs : List ReEncrypted)
    → s ≤ n
    → IsNumbered n xs
    → All (λ i. s ≤ i.f_cnt) (map (re_encrypted_item r.session) xs)
re_encrypted-above r s n [] h k = tt
re_encrypted-above r s n (x ∷ xs) h k =
    (omega (arith, k.0, h), re_encrypted-above r s (n + 1) xs (omega (arith, h)) k.1)

pub re_encrypted-OfDevice :
    (r : Reading) (xs : List ReEncrypted) → OfDevice r (map (re_encrypted_item r.session) xs)
re_encrypted-OfDevice r [] = tt
re_encrypted-OfDevice r (x ∷ xs) = (refl, re_encrypted-OfDevice r xs)

pub length-map {ℓ κ} :
    {A : Type ℓ} {B : Type κ} (f : A → B) (xs : List A) → length (map f xs) ≡ length xs
length-map f [] = refl
length-map f (x ∷ xs) = ap suc (length-map f xs)

-- What reset_item keeps and what it clears.
pub All-reset_item :
    (P Q : Item → Type 0) (is : List Item)
    → ((i : Item) → P i → Q (reset_item i))
    → All P is
    → All Q (map reset_item is)
All-reset_item P Q [] f h = tt
All-reset_item P Q (i ∷ is) f h = (f i h.0, All-reset_item P Q is f h.1)
