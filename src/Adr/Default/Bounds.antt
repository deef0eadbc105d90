-- ===== src/Adr/Default/Bounds.antt =====
-- Handle of internal/adr/default.go: the range of its answers.
use Prim.Native.Nat.{min}
use chirpstack_network_serve.Prelude.{
  ℕ, zero, suc, ◌≤◌, ◌≡◌, refl, ◌⊎◌, ◌++◌, ap, sym, subst, All, Bool, true, false, some, List, [],
  ◌∷◌, arith, get_or, ltb, ◌&&◌, ◌!=◌, if◌then◌else◌, Bool-cases, Option-cases, inl, inr,
}
use chirpstack_network_serve.Prelude.Int.{ℤ, pos, negsuc, ltb_ℤ}
use chirpstack_network_serve.Float.{FloatOps, IsOrdered}
use chirpstack_network_serve.Lorawan.{LinkAdrReq}
use chirpstack_network_serve.Lorawan.Band.{Band, DataRate, lora}
use chirpstack_network_serve.AdrTypes.{UplinkMetaData, HandleRequest, HandleResponse}
use chirpstack_network_serve.Adr.Default.{
  get_ideal_tx_power_index_and_dr, get_nb_trans, get_max_snr, max_lora_dr,
  get_packet_loss_percentage, n_step, get_history_count, pkt_loss_rate_table,
  required_history_count, adapt, handle, unchanged, is_lora_125,
}
use chirpstack_network_serve.Adr.Default.Steps.{
  steps_up_bounds, get_ideal_tx_power_index_and_dr_down,
}

table_bounds :
    (row column : ℕ)
    → row ≤ 3
    → column ≤ 2
    → (1 ≤ get_or (get_or pkt_loss_rate_table row []) column 0)
      × (get_or (get_or pkt_loss_rate_table row []) column 0 ≤ 3)
table_bounds zero zero h k = omega arith
table_bounds zero (suc zero) h k = omega arith
table_bounds zero (suc (suc zero)) h k = omega arith
table_bounds (suc zero) zero h k = omega arith
table_bounds (suc zero) (suc zero) h k = omega arith
table_bounds (suc zero) (suc (suc zero)) h k = omega arith
table_bounds (suc (suc zero)) zero h k = omega arith
table_bounds (suc (suc zero)) (suc zero) h k = omega arith
table_bounds (suc (suc zero)) (suc (suc zero)) h k = omega arith
table_bounds (suc (suc (suc zero))) zero h k = omega arith
table_bounds (suc (suc (suc zero))) (suc zero) h k = omega arith
table_bounds (suc (suc (suc zero))) (suc (suc zero)) h k = omega arith
table_bounds _ _ h k = absurd (omega arith)

-- NbTrans is 1, 2 or 3, whatever the current value and the packet loss are.
get_nb_trans_bounds :
    (f : FloatOps) (current rate : ℕ)
    → (1 ≤ get_nb_trans f current rate) × (get_nb_trans f current rate ≤ 3)
unfolding get_nb_trans
get_nb_trans_bounds f current rate = table_bounds _ _ (ground arith) (ground arith)

ideal_bounds :
    (n : ℤ) (p dr max_p max_dr : ℕ)
    → dr ≤ max_dr
    → (dr ≤ (get_ideal_tx_power_index_and_dr n p dr max_p max_dr).1)
      × ((get_ideal_tx_power_index_and_dr n p dr max_p max_dr).1 ≤ max_dr)
      × (((get_ideal_tx_power_index_and_dr n p dr max_p max_dr).0 ≤ max_p)
          ⊎ ((get_ideal_tx_power_index_and_dr n p dr max_p max_dr).0 ≤ p))
unfolding get_ideal_tx_power_index_and_dr
ideal_bounds (pos n) p dr max_p max_dr h = steps_up_bounds n p dr max_p max_dr h
ideal_bounds (negsuc n) p dr max_p max_dr h =
    rw (get_ideal_tx_power_index_and_dr_down n p dr max_p max_dr)
      (omega arith, h, inr (omega arith))

-- The data-rate is a LoRa one of 125 kHz.
abbrev pub IsLora125 : Band LinkAdrReq → ℕ → Type 0
IsLora125 band i =
    (d : DataRate) × (band.get_data_rate i ≡ some d) × (d.modulation ≡ lora) × (d.bandwidth ≡ 125)

-- The data-rate is the last LoRa one of 125 kHz in the list.
pub record IsLastLora (band : Band LinkAdrReq) (rates : List ℕ) (limit : ℕ) : Type 0 where
  pub before : List ℕ
  pub after : List ℕ
  pub split : rates ≡ before ++ limit ∷ after
  pub is_lora : IsLora125 band limit
  pub none_after : All (λ i. ¬ (IsLora125 band i)) after

-- The largest data-rate that the algorithm uses: the last enabled LoRa one of 125 kHz, or 0 where
-- there is none.
abbrev pub IsLimit : Band LinkAdrReq → List ℕ → ℕ → Type 0
IsLimit band rates limit =
    IsLastLora band rates limit ⊎ ((limit ≡ 0) × All (λ i. ¬ (IsLora125 band i)) rates)

behind :
    (band : Band LinkAdrReq) (i : ℕ) (is : List ℕ) (m : ℕ)
    → IsLastLora band is m
    → IsLastLora band (i ∷ is) m
behind band i is m l = record {
  before = i ∷ l.before;
  after = l.after;
  split = ap (λ x. i ∷ x) l.split;
  is_lora = l.is_lora;
  none_after = l.none_after;
}

not_lora :
    (band : Band LinkAdrReq) (i : ℕ) (d : DataRate)
    → band.get_data_rate i ≡ some d
    → is_lora_125 d ≡ false
    → ¬ (IsLora125 band i)
not_lora band i d e h (d', e', l, b) = absurd (ground (arith, e, h, e', l, b))

max_lora_dr-last :
    (band : Band LinkAdrReq) (found : ℕ) (is : List ℕ) (m : ℕ)
    → max_lora_dr band found is ≡ some m
    → IsLastLora band is m ⊎ ((m ≡ found) × All (λ i. ¬ (IsLora125 band i)) is)
unfolding max_lora_dr
max_lora_dr-last band found [] m h = inr (ground (arith, h), tt)
max_lora_dr-last band found (i ∷ is) m h = elim (Option-cases (band.get_data_rate i)) [
  | inl e ↦ absurd (ground (arith, e, h))
  | inr (d, e) ↦ elim (Bool-cases (is_lora_125 d)) [
    | inl l ↦ elim (max_lora_dr-last band i is m (ground (arith, e, l, h))) [
      | inl last ↦ inl (behind band i is m last)
      | inr (same, others) ↦ inl (record {
        before = [];
        after = is;
        split = ap (λ x. x ∷ is) (sym same);
        is_lora = subst (IsLora125 band) (sym same) (d, e, ground (arith, l), ground (arith, l));
        none_after = others;
      })
    ]
    | inr l ↦ elim (max_lora_dr-last band found is m (ground (arith, e, l, h))) [
      | inl last ↦ inl (behind band i is m last)
      | inr (same, others) ↦ inr (same, (not_lora band i d e l, others))
    ]
  ]
]

-- What an answer to a request keeps to; `limit` is the largest data-rate that the algorithm uses.
pub record IsWithin (req : HandleRequest) (limit : ℕ) (resp : HandleResponse) : Type 0 where
  pub dr_at_most : resp.dr ≤ limit
  -- the data-rate falls only to the limit
  pub dr_at_least : min req.dr limit ≤ resp.dr
  -- the index is not raised above its maximum
  pub tx_power_index :
      (resp.tx_power_index ≤ req.max_tx_power_index) ⊎ (resp.tx_power_index ≤ req.tx_power_index)
  pub nb_trans : (1 ≤ resp.nb_trans) × (resp.nb_trans ≤ 3)

adapt-IsWithin :
    (f : FloatOps) (req : HandleRequest) (max_lora : ℕ)
    → IsWithin req (min req.max_dr max_lora) (adapt f req max_lora)
unfolding adapt
adapt-IsWithin f req max_lora =
    let max_dr = if ltb max_lora req.max_dr then max_lora else req.max_dr in
    let dr = if ltb max_dr req.dr then max_dr else req.dr in
    let below : dr ≤ max_dr = ground arith in
    let limit : max_dr ≡ min req.max_dr max_lora = ground arith in
    let from : min req.dr max_dr ≡ dr = ground arith in
    let ideal =
      ideal_bounds (n_step f req) req.tx_power_index dr req.max_tx_power_index max_dr below in
    let loss = get_packet_loss_percentage f req.uplink_history in
    let nb = get_nb_trans_bounds f req.nb_trans loss in
    elim (Bool-cases (
      ltb_ℤ (n_step f req) (pos 0)
      && get_history_count req.tx_power_index req.uplink_history != required_history_count)) [
        | inl e ↦ rw e (record {
          dr_at_most = omega (arith, below, limit);
          dr_at_least = omega (arith, from, limit);
          tx_power_index = inr (omega arith);
          nb_trans = nb;
        })
        | inr e ↦ rw e (record {
          dr_at_most = omega (arith, ideal.1, limit);
          dr_at_least = omega (arith, ideal.0, from, limit);
          tx_power_index = ideal.2;
          nb_trans = nb;
        })
      ]

-- With ADR enabled, an answer keeps the data-rate at most to the requested maximum and to the last
-- enabled LoRa (125kHz) data-rate (0 where there is none), lowers it only to that limit, does not raise
-- the power index above its maximum, and keeps the repetitions between 1 and 3. With ADR disabled the
-- answer is the current values.
pub handle-IsWithin :
    (band : Band LinkAdrReq) (f : FloatOps) (req : HandleRequest) (resp : HandleResponse)
    → handle band f req ≡ some resp
    → (req.adr ≡ false) × (resp ≡ unchanged req)
      ⊎ ((req.adr ≡ true)
          × ((max_lora : ℕ) × IsLimit band band.get_enabled_uplink_data_rates max_lora
              × IsWithin req (min req.max_dr max_lora) resp))
unfolding handle
handle-IsWithin band f req resp e = elim (Bool-cases req.adr) [
  | inl on ↦ elim (Option-cases (max_lora_dr band 0 band.get_enabled_uplink_data_rates)) [
    | inl failed ↦ absurd (ground (arith, failed))
    | inr (max_lora, found) ↦
        let same : adapt f req max_lora ≡ resp = ground (arith, on, found) in
        inr (
          on,
          (
            max_lora,
            max_lora_dr-last band 0 band.get_enabled_uplink_data_rates max_lora found,
            subst (IsWithin req (min req.max_dr max_lora)) same (adapt-IsWithin f req max_lora),
          ),
        )
  ]
  | inr off ↦ inl (off, ground (arith, off))
]

-- No value is above the largest one so far, nor is any SNR of the records.
abbrev IsMax : FloatOps → ℕ → ℕ → List UplinkMetaData → Type 0
IsMax f largest snr ms = (f.lt largest snr ≡ false) × All (λ m. f.lt largest m.max_snr ≡ false) ms

-- The largest SNR of a history is below neither the initial value nor the SNR of any record, for an
-- ordered comparison.
pub get_max_snr-max :
    (f : FloatOps) (o : IsOrdered f) (snr : ℕ) (ms : List UplinkMetaData)
    → (f.lt (get_max_snr f snr ms) snr ≡ false)
      × All (λ m. f.lt (get_max_snr f snr ms) m.max_snr ≡ false) ms
unfolding get_max_snr
get_max_snr-max f o snr [] = (o.lt_irrefl snr, tt)
get_max_snr-max f o snr (m ∷ ms) =
    step (f.lt snr m.max_snr) refl (get_max_snr-max f o m.max_snr ms) (get_max_snr-max f o snr ms)
  where
    step :
        (b : Bool)
        → f.lt snr m.max_snr ≡ b
        → IsMax f (get_max_snr f m.max_snr ms) m.max_snr ms
        → IsMax f (get_max_snr f snr ms) snr ms
        → IsMax f (get_max_snr f (if b then m.max_snr else snr) ms) snr (m ∷ ms)
    step true e h k = (o.le_trans snr m.max_snr _ (o.lt_asymm snr m.max_snr e) h.0, (h.0, h.1))
    step false e h k = (k.0, (o.le_trans m.max_snr snr _ e k.0, k.1))
