-- ===== src/Downlink/Select/Chosen.antt =====
-- SelectDownlinkGateway of internal/downlink/gateway/gateway.go: the gateway it selects.
use chirpstack_network_serve.Prelude.{
  ℕ, suc, ◌<◌, ◌≡◌, subst, true, false, none, some, List, [], ◌∷◌, ◌⊎◌, ok, Option-cases,
  List-cases, length, get_or, arith, inl, inr, All, All-get_or, All-mono,
}
use chirpstack_network_serve.Lorawan.Band.{DataRate, lora}
use chirpstack_network_serve.Prelude.Int.{pos, ltb_ℤ}
use chirpstack_network_serve.MacCommand.Inform.{required_snr}
use chirpstack_network_serve.Downlink.Select.{
  DeviceGatewayRxInfo, SelectEnv, less, by_signal, has_margin, with_margin, select_downlink_gateway,
}
use chirpstack_network_serve.Downlink.Select.Sorting.{
  IsComparable, head_or, All-by_signal, by_signal-All, by_signal-Strongest, All-with_margin,
  with_margin-nil,
}

-- The SNR that the spreading-factor needs, 0 for one that is not in the table.
abbrev pub needed : SelectEnv → ℕ → ℕ
needed env sf = elim (required_snr env.float sf) [ some r ↦ r | none ↦ env.float.of_ℤ (pos 0) ]

-- The data-rate is a LoRa one, and the SNR minus the needed SNR is greater than the margin or equal
-- to it.
pub record HasMargin (env : SelectEnv) (m : ℕ) (dr : DataRate) (g : DeviceGatewayRxInfo)
    : Type 0 where
  pub is_lora : dr.modulation ≡ lora
  pub enough :
      (env.float.lt m (env.float.sub g.lora_snr (needed env dr.spread_factor)) ≡ true)
      ⊎ (env.equal m (env.float.sub g.lora_snr (needed env dr.spread_factor)) ≡ true)

-- The SNR of a is greater than that of b, or equal with a greater RSSI.
abbrev pub Stronger : SelectEnv → DeviceGatewayRxInfo → DeviceGatewayRxInfo → Type 0
Stronger env a b =
    ((env.equal a.lora_snr b.lora_snr ≡ true) × (ltb_ℤ b.rssi a.rssi ≡ true))
    ⊎ ((env.equal a.lora_snr b.lora_snr ≡ false) × (env.float.lt b.lora_snr a.lora_snr ≡ true))

-- The gateway has the margin, or no gateway has it and no signal is stronger.
abbrev pub IsSelected :
    SelectEnv → ℕ → DataRate → List DeviceGatewayRxInfo → DeviceGatewayRxInfo → Type 0
IsSelected env m dr infos g =
    HasMargin env m dr g
    ⊎ (All (λ x. ¬ (Stronger env x g)) infos × All (λ x. ¬ (HasMargin env m dr x)) infos)

module _ (env : SelectEnv) where
  less-Stronger : (a b : DeviceGatewayRxInfo) → less env a b ≡ false → ¬ (Stronger env a b)
  unfolding less
  less-Stronger a b h (inl s) = absurd (ground (arith, h, s))
  less-Stronger a b h (inr s) = absurd (ground (arith, h, s))

  has_margin-HasMargin :
      (m : ℕ) (dr : DataRate) (g : DeviceGatewayRxInfo)
      → has_margin env m dr g ≡ true
      → HasMargin env m dr g
  unfolding has_margin
  has_margin-HasMargin m dr g h = record { is_lora = ground (arith, h); enough = ground (arith, h) }

  has_margin-none :
      (m : ℕ) (dr : DataRate) (g : DeviceGatewayRxInfo)
      → has_margin env m dr g ≡ false
      → ¬ (HasMargin env m dr g)
  unfolding has_margin
  has_margin-none m dr g h k = absurd (ground (arith, h, k.is_lora, k.enough))

All-head_or :
    (P : DeviceGatewayRxInfo → Type 0) (d : DeviceGatewayRxInfo) (xs : List DeviceGatewayRxInfo)
    → P d
    → All P xs
    → P (get_or xs 0 d)
All-head_or P d [] p h = p
All-head_or P d (x ∷ xs) p h = h.0

-- What holds of every gateway holds of the one that is selected, where rand.Intn is below its
-- argument. The selected gateway has at least the margin over the SNR that the LoRa data-rate needs, or
-- else no gateway has it, and none has a stronger signal (a greater SNR, or an equal one with a greater
-- RSSI).
pub select_downlink_gateway-IsSelected :
    (env : SelectEnv) (P : DeviceGatewayRxInfo → Type 0) (m rx_dr : ℕ)
    (infos : List DeviceGatewayRxInfo) (g : DeviceGatewayRxInfo)
    → IsComparable env
    → ((n : ℕ) → env.random (suc n) < suc n)
    → All P infos
    → select_downlink_gateway env m rx_dr infos ≡ ok g
    → P g
      × ((dr : DataRate) × (env.band.get_data_rate rx_dr ≡ some dr) × IsSelected env m dr infos g)
unfolding select_downlink_gateway
select_downlink_gateway-IsSelected env P m rx_dr [] g o r p h = absurd (ground (arith, h))
select_downlink_gateway-IsSelected env P m rx_dr (i ∷ is) g o r p h =
    let sorted = by_signal env (i ∷ is) in
    let p' = All-by_signal env P (i ∷ is) p in
    elim (Option-cases (env.band.get_data_rate rx_dr)) [
      | inl e ↦ absurd (ground (arith, e, h))
      | inr (dr, e) ↦ elim (List-cases (with_margin env m dr sorted)) [
        | inl empty ↦
            let same : get_or sorted 0 i ≡ g = ground (arith, e, empty, h) in
            let strongest =
              by_signal-All env (λ x. less env x (head_or i sorted) ≡ false) (i ∷ is)
                (by_signal-Strongest env i (i ∷ is) o) in
            let no_margin =
              by_signal-All env (λ x. has_margin env m dr x ≡ false) (i ∷ is)
                (with_margin-nil env m dr sorted empty) in
            let here : P (get_or sorted 0 i) = All-head_or P i sorted p.0 p' in
            subst
              (λ x.
                P x
                × ((d : DataRate) × (env.band.get_data_rate rx_dr ≡ some d)
                    × IsSelected env m d (i ∷ is) x))
              same
              (
                here,
                (
                  dr,
                  e,
                  inr (
                    All-mono (i ∷ is) (λ x h. less-Stronger env x (get_or sorted 0 i) h) strongest,
                    All-mono (i ∷ is) (λ x h. has_margin-none env m dr x h) no_margin,
                  ),
                ),
              )
        | inr (x, xs, eligible) ↦
            let same : get_or (x ∷ xs) (env.random (length (x ∷ xs))) x ≡ g =
              ground (arith, e, eligible, h) in
            let all : All (λ x. P x × (has_margin env m dr x ≡ true)) (x ∷ xs) =
              subst (All (λ x. P x × (has_margin env m dr x ≡ true))) eligible
                (All-with_margin env P m dr sorted p') in
            let k =
              All-get_or (λ x. P x × (has_margin env m dr x ≡ true)) (x ∷ xs)
                (env.random (length (x ∷ xs))) x (r (length xs)) all in
            subst
              (λ x.
                P x
                × ((d : DataRate) × (env.band.get_data_rate rx_dr ≡ some d)
                    × IsSelected env m d (i ∷ is) x))
              same
              (
                k.0,
                (
                  dr,
                  e,
                  inl (
                      has_margin-HasMargin env m dr
                        (get_or (x ∷ xs) (env.random (length (x ∷ xs))) x) k.1),
                ),
              )
      ]
    ]
