-- ===== src/Downlink/Window/Order.antt =====
-- setDataTXInfo of internal/downlink/data/data.go: the order and the times of the windows.
use chirpstack_network_serve.Prelude.{
  ℕ, ◌+◌, ◌<◌, ◌≡◌, ap, subst, Bool, false, some, List, [], ◌∷◌, ok, Result-cases, Option-cases,
  Bool-cases, arith, if◌then◌else◌, inl, inr, u32,
}
use chirpstack_network_serve.Gps
use chirpstack_network_serve.Gateway.{Timing, immediately, delay}
use chirpstack_network_serve.Downlink.Payload.{Opportunity}
use chirpstack_network_serve.Downlink.Window.{
  WindowEnv, modulation_info, opportunity, rx1_delay_of, rx2_delay_of, rx1_opportunity,
  rx2_opportunity, prefer_rx2, set_data_tx_info,
}

-- The timing, frequency and largest payload of an opportunity.
pub record Opens (e : WindowEnv) (frequency dr : ℕ) (timing : Timing) (o : Opportunity)
    : Type 0 where
  pub at : o.frame_item.tx_info.timing ≡ some timing
  pub on : o.frame_item.tx_info.frequency ≡ frequency
  pub largest :
      e.band.get_max_payload_size e.profile.mac_version e.profile.reg_params_revision dr
      ≡ some o.remaining_payload_size

opportunity-Opens :
    (e : WindowEnv) (frequency dr : ℕ) (t : Timing) (o : Opportunity)
    → opportunity e frequency dr (some t) ≡ ok o
    → Opens e frequency dr t o
unfolding opportunity
opportunity-Opens e frequency dr t o h = elim (Result-cases (modulation_info e.band dr)) [
  | inr (x, q) ↦ absurd (ground (arith, q, h))
  | inl (info, q) ↦
      elim (Option-cases
        (e.band.get_max_payload_size e.profile.mac_version e.profile.reg_params_revision dr)) [
          | inl r ↦ absurd (ground (arith, q, r, h))
          | inr (size, r) ↦ record {
            at = ground (arith, q, r, h);
            on = ground (arith, q, r, h);
            largest = ground (arith, q, r, h);
          }
        ]
]

-- RX1 has the frequency of the uplink and the data-rate that the band gives for them.
pub record OpensRx1 (e : WindowEnv) (o : Opportunity) : Type 0 where
  pub frequency : ℕ
  pub dr : ℕ
  pub band_frequency :
      e.band.get_rx1_frequency_for_uplink_frequency e.uplink_frequency ≡ some frequency
  pub band_dr : e.band.get_rx1_data_rate_index e.session.dr e.session.rx1_dr_offset ≡ some dr
  pub opens : Opens e frequency dr (delay (rx1_delay_of e)) o

rx1_opportunity-OpensRx1 :
    (e : WindowEnv) (o : Opportunity) → rx1_opportunity e ≡ ok o → OpensRx1 e o
unfolding rx1_opportunity
rx1_opportunity-OpensRx1 e o h =
    elim (Option-cases (e.band.get_rx1_data_rate_index e.session.dr e.session.rx1_dr_offset)) [
      | inl q ↦ absurd (ground (arith, q, h))
      | inr (dr, q) ↦ elim (Result-cases (modulation_info e.band dr)) [
        | inr (x, i) ↦ absurd (ground (arith, q, i, h))
        | inl (info, i) ↦
            elim (Option-cases (e.band.get_rx1_frequency_for_uplink_frequency e.uplink_frequency)) [
              | inl r ↦ absurd (ground (arith, q, i, r, h))
              | inr (f, r) ↦ record {
                frequency = f;
                dr = dr;
                band_frequency = r;
                band_dr = q;
                opens =
                    opportunity-Opens e f dr (delay (rx1_delay_of e)) o
                      (ground (arith, q, i, r, h));
              }
            ]
      ]
    ]

-- Both windows, in the order of the preference.
pub record Both (e : WindowEnv) (os : List Opportunity) : Type 0 where
  pub prefer : Bool
  pub rx1 : Opportunity
  pub rx2 : Opportunity
  pub preferred : prefer_rx2 e ≡ ok prefer
  pub order : os ≡ (if prefer then rx2 ∷ rx1 ∷ [] else rx1 ∷ rx2 ∷ [])
  pub first : OpensRx1 e rx1
  pub second :
      Opens e
        (u32 e.session.rx2_frequency)
        e.session.rx2_dr
        (delay (rx1_delay_of e + Gps.second))
        rx2

rx2_delay : (e : WindowEnv) → 0 < e.session.rx_delay → rx2_delay_of e ≡ rx1_delay_of e + Gps.second
rx2_delay e h = ground arith

-- The windows that are appended.
record Windows (e : WindowEnv) (os : List Opportunity) : Type 0 where
  prefer : Bool
  o1 : Opportunity
  o2 : Opportunity
  preferred : prefer_rx2 e ≡ ok prefer
  rx1 : rx1_opportunity e ≡ ok o1
  rx2 : rx2_opportunity e ≡ ok o2
  order : os ≡ (if prefer then o2 ∷ o1 ∷ [] else o1 ∷ o2 ∷ [])

set_data_tx_info-Windows :
    (e : WindowEnv) (os : List Opportunity)
    → e.config.rx_window ≡ 0
    → set_data_tx_info e [] ≡ ok os
    → Windows e os
unfolding set_data_tx_info
set_data_tx_info-Windows e os w h = elim (Result-cases (prefer_rx2 e)) [
  | inr (x, p) ↦ absurd (ground (arith, p, h))
  | inl (prefer, p) ↦ elim (Bool-cases prefer) [
    | inl b ↦ elim (Result-cases (rx2_opportunity e)) [
      | inr (x, r) ↦ absurd (ground (arith, p, b, w, r, h))
      | inl (o2, r) ↦ elim (Result-cases (rx1_opportunity e)) [
        | inr (x, q) ↦ absurd (ground (arith, p, b, w, r, q, h))
        | inl (o1, q) ↦ record {
          prefer = prefer;
          o1 = o1;
          o2 = o2;
          preferred = p;
          rx1 = q;
          rx2 = r;
          order = ground (arith, p, b, w, r, q, h);
        }
      ]
    ]
    | inr b ↦ elim (Result-cases (rx1_opportunity e)) [
      | inr (x, q) ↦ absurd (ground (arith, p, b, w, q, h))
      | inl (o1, q) ↦ elim (Result-cases (rx2_opportunity e)) [
        | inr (x, r) ↦ absurd (ground (arith, p, b, w, q, r, h))
        | inl (o2, r) ↦ record {
          prefer = prefer;
          o1 = o1;
          o2 = o2;
          preferred = p;
          rx1 = q;
          rx2 = r;
          order = ground (arith, p, b, w, r, q, h);
        }
      ]
    ]
  ]
]

rx2_opportunity-Opens :
    (e : WindowEnv) (o : Opportunity)
    → e.immediately ≡ false
    → 0 < e.session.rx_delay
    → rx2_opportunity e ≡ ok o
    → Opens e (u32 e.session.rx2_frequency) e.session.rx2_dr (delay (rx1_delay_of e + Gps.second)) o
unfolding rx2_opportunity
rx2_opportunity-Opens e o i d h =
    let f = u32 e.session.rx2_frequency in
    let same : delay (rx2_delay_of e) ≡ delay (rx1_delay_of e + Gps.second) =
      ap delay (rx2_delay e d) in
    subst (λ t. Opens e f e.session.rx2_dr t o) same
      (opportunity-Opens e f e.session.rx2_dr (delay (rx2_delay_of e)) o (
        subst
          (λ b.
            opportunity e f e.session.rx2_dr
              (some (if b then immediately else delay (rx2_delay_of e)))
            ≡ ok o)
          i h))

-- With automatic windows, for a device with a receive delay of its own and a downlink that is not
-- immediate, there are two opportunities, RX2 one second after RX1: RX2 comes first where it is
-- preferred, and RX1 otherwise.
pub set_data_tx_info-Both :
    (e : WindowEnv) (os : List Opportunity)
    → e.config.rx_window ≡ 0
    → e.immediately ≡ false
    → 0 < e.session.rx_delay
    → set_data_tx_info e [] ≡ ok os
    → Both e os
set_data_tx_info-Both e os w i d h =
    let v = set_data_tx_info-Windows e os w h in
    record {
      prefer = v.prefer;
      rx1 = v.o1;
      rx2 = v.o2;
      preferred = v.preferred;
      order = v.order;
      first = rx1_opportunity-OpensRx1 e v.o1 v.rx1;
      second = rx2_opportunity-Opens e v.o2 i d v.rx2;
    }
