-- ===== src/Downlink/Select/Sorting.antt =====
-- SelectDownlinkGateway of internal/downlink/gateway/gateway.go: the order of the signals.
use chirpstack_network_serve.Prelude.{
  ℕ, ◌≡◌, true, false, List, [], ◌∷◌, get_or, arith, Bool-cases, inl, inr, All, All-mono,
}
use chirpstack_network_serve.Prelude.Int.{ℤ, ltb_ℤ}
use chirpstack_network_serve.Float.{IsOrdered}
use chirpstack_network_serve.Lorawan.Band.{DataRate}
use chirpstack_network_serve.Downlink.Select.{
  DeviceGatewayRxInfo, SelectEnv, less, insert_by_signal, by_signal, has_margin, with_margin,
}

-- Numbers that are equal are neither smaller nor larger, and so are those that are not.
pub record IsComparable (env : SelectEnv) : Type 0 where
  pub ordered : IsOrdered env.float
  pub equal_of :
      (a b : ℕ) → env.float.lt a b ≡ false → env.float.lt b a ≡ false → env.equal a b ≡ true
  pub equal_sym : (a b : ℕ) → env.equal a b ≡ true → env.equal b a ≡ true
  pub equal_not_lt : (a b : ℕ) → env.equal a b ≡ true → env.float.lt a b ≡ false

-- `x` is at least `y`.
snr_trans :
    (env : SelectEnv) (x y z : ℕ)
    → IsComparable env
    → env.float.lt x y ≡ false
    → env.float.lt y z ≡ false
    → env.float.lt x z ≡ false
snr_trans env x y z o h k = o.ordered.le_trans z y x k h

ltb_ℤ_trans : (a b c : ℤ) → ltb_ℤ b a ≡ true → ltb_ℤ c b ≡ true → ltb_ℤ c a ≡ true
ltb_ℤ_trans a b c h k = ground arith

less_le :
    (env : SelectEnv) (a b : DeviceGatewayRxInfo)
    → IsComparable env
    → less env a b ≡ true
    → env.float.lt a.lora_snr b.lora_snr ≡ false
unfolding less
less_le env a b o h = elim (Bool-cases (env.equal a.lora_snr b.lora_snr)) [
  | inl e ↦ o.equal_not_lt a.lora_snr b.lora_snr e
  | inr e ↦ o.ordered.lt_asymm b.lora_snr a.lora_snr (ground (arith, e, h))
]

less_of_lt :
    (env : SelectEnv) (a b : DeviceGatewayRxInfo)
    → IsComparable env
    → env.float.lt b.lora_snr a.lora_snr ≡ true
    → less env a b ≡ true
unfolding less
less_of_lt env a b o h = elim (Bool-cases (env.equal a.lora_snr b.lora_snr)) [
  | inl e ↦ absurd (
      ground (arith, h, o.equal_not_lt b.lora_snr a.lora_snr (o.equal_sym a.lora_snr b.lora_snr e)))
  | inr e ↦ ground (arith, e, h)
]

less_trans :
    (env : SelectEnv) (a b c : DeviceGatewayRxInfo)
    → IsComparable env
    → less env a b ≡ true
    → less env b c ≡ true
    → less env a c ≡ true
unfolding less
less_trans env a b c o h k =
    let ab = less_le env a b o h in
    let bc = less_le env b c o k in
    let ac = snr_trans env a.lora_snr b.lora_snr c.lora_snr o ab bc in
    elim (Bool-cases (env.float.lt c.lora_snr a.lora_snr)) [
      | inl l ↦ less_of_lt env a c o l
      | inr l ↦
          let ca = l in
          let ba = snr_trans env b.lora_snr c.lora_snr a.lora_snr o bc ca in
          let cb = snr_trans env c.lora_snr a.lora_snr b.lora_snr o ca ab in
          let eab = o.equal_of a.lora_snr b.lora_snr ab ba in
          let ebc = o.equal_of b.lora_snr c.lora_snr bc cb in
          let eac = o.equal_of a.lora_snr c.lora_snr ac ca in
          let r =
            ltb_ℤ_trans a.rssi b.rssi c.rssi (ground (arith, h, eab)) (ground (arith, k, ebc)) in
          ground (arith, eac, r)
    ]

-- No signal of the list comes before it.
abbrev pub Strongest : SelectEnv → DeviceGatewayRxInfo → List DeviceGatewayRxInfo → Type 0
Strongest env g = All (λ x. less env x g ≡ false)

pub less_irrefl :
    (env : SelectEnv) (a : DeviceGatewayRxInfo) → IsComparable env → less env a a ≡ false
unfolding less
less_irrefl env a o = let l = o.ordered.lt_irrefl a.lora_snr in ground (arith, l)

abbrev pub head_or : DeviceGatewayRxInfo → List DeviceGatewayRxInfo → DeviceGatewayRxInfo
head_or d xs = get_or xs 0 d

All-insert_by_signal :
    (env : SelectEnv) (P : DeviceGatewayRxInfo → Type 0) (a : DeviceGatewayRxInfo)
    (xs : List DeviceGatewayRxInfo)
    → P a
    → All P xs
    → All P (insert_by_signal env a xs)
unfolding insert_by_signal
All-insert_by_signal env P a [] p h = (p, tt)
All-insert_by_signal env P a (x ∷ xs) p h = elim (Bool-cases (less env a x)) [
  | inl e ↦ rw (e, insert_by_signal) (p, h)
  | inr e ↦ rw (e, insert_by_signal) (h.0, All-insert_by_signal env P a xs p h.1)
]

pub All-by_signal :
    (env : SelectEnv) (P : DeviceGatewayRxInfo → Type 0) (xs : List DeviceGatewayRxInfo)
    → All P xs
    → All P (by_signal env xs)
unfolding by_signal
All-by_signal env P [] h = tt
All-by_signal env P (x ∷ xs) h =
    All-insert_by_signal env P x (by_signal env xs) h.0 (All-by_signal env P xs h.1)

insert_by_signal-All :
    (env : SelectEnv) (P : DeviceGatewayRxInfo → Type 0) (a : DeviceGatewayRxInfo)
    (xs : List DeviceGatewayRxInfo)
    → All P (insert_by_signal env a xs)
    → P a × All P xs
unfolding insert_by_signal
insert_by_signal-All env P a [] h = h
insert_by_signal-All env P a (x ∷ xs) h = elim (Bool-cases (less env a x)) [
  | inl e ↦ let h' : All P (a ∷ x ∷ xs) = rw e at h in h'
  | inr e ↦
      let h' : All P (x ∷ insert_by_signal env a xs) = rw e at h in
      let ih = insert_by_signal-All env P a xs h'.1 in (ih.0, (h'.0, ih.1))
]

pub by_signal-All :
    (env : SelectEnv) (P : DeviceGatewayRxInfo → Type 0) (xs : List DeviceGatewayRxInfo)
    → All P (by_signal env xs)
    → All P xs
unfolding by_signal
by_signal-All env P [] h = tt
by_signal-All env P (x ∷ xs) h =
    let r = insert_by_signal-All env P x (by_signal env xs) h in (r.0, by_signal-All env P xs r.1)

insert_by_signal-Strongest :
    (env : SelectEnv) (a d : DeviceGatewayRxInfo) (xs : List DeviceGatewayRxInfo)
    → IsComparable env
    → Strongest env (head_or a xs) xs
    → Strongest env (head_or d (insert_by_signal env a xs)) (insert_by_signal env a xs)
unfolding insert_by_signal
insert_by_signal-Strongest env a d [] o h = (less_irrefl env a o, tt)
insert_by_signal-Strongest env a d (x ∷ xs) o h = elim (Bool-cases (less env a x)) [
  | inl e ↦
      let behind : (y : DeviceGatewayRxInfo) → less env y x ≡ false → less env y a ≡ false = λ y n.
        elim (Bool-cases (less env y a)) [
          | inl l ↦ absurd (ground (arith, n, less_trans env y a x o l e))
          | inr l ↦ l
        ] in
      rw (e, insert_by_signal) (less_irrefl env a o, All-mono (x ∷ xs) behind h)
  | inr e ↦
      rw (e, insert_by_signal)
        (h.0, All-insert_by_signal env (λ y. less env y x ≡ false) a xs e h.1)
]

pub by_signal-Strongest :
    (env : SelectEnv) (d : DeviceGatewayRxInfo) (xs : List DeviceGatewayRxInfo)
    → IsComparable env
    → Strongest env (head_or d (by_signal env xs)) (by_signal env xs)
unfolding by_signal
by_signal-Strongest env d [] o = tt
by_signal-Strongest env d (x ∷ xs) o =
    insert_by_signal-Strongest env x d (by_signal env xs) o (by_signal-Strongest env x xs o)

pub All-with_margin :
    (env : SelectEnv) (P : DeviceGatewayRxInfo → Type 0) (m : ℕ) (dr : DataRate)
    (xs : List DeviceGatewayRxInfo)
    → All P xs
    → All (λ x. P x × (has_margin env m dr x ≡ true)) (with_margin env m dr xs)
unfolding with_margin
All-with_margin env P m dr [] h = tt
All-with_margin env P m dr (x ∷ xs) h = elim (Bool-cases (has_margin env m dr x)) [
  | inl e ↦ rw (e, with_margin) ((h.0, e), All-with_margin env P m dr xs h.1)
  | inr e ↦ rw (e, with_margin) (All-with_margin env P m dr xs h.1)
]

pub with_margin-nil :
    (env : SelectEnv) (m : ℕ) (dr : DataRate) (xs : List DeviceGatewayRxInfo)
    → with_margin env m dr xs ≡ []
    → All (λ x. has_margin env m dr x ≡ false) xs
unfolding with_margin
with_margin-nil env m dr [] h = tt
with_margin-nil env m dr (x ∷ xs) h = elim (Bool-cases (has_margin env m dr x)) [
  | inl e ↦ absurd (ground (arith, e, h))
  | inr e ↦ (e, with_margin-nil env m dr xs (ground (arith, e, h)))
]
