-- ===== src/Adr/LrFhss/Choice.antt =====
-- Handle of internal/adr/lr_fhss.go: the data-rates that it chooses from.
use chirpstack_network_serve.Prelude.{
  ℕ, ◌≤◌, ◌<◌, ◌≡◌, ◌⊎◌, refl, subst, true, false, not, ◌&&◌, some, List, [], ◌∷◌, String, arith,
  leb, ◌==◌, if◌then◌else◌, Bool-cases, Option-cases, inl, inr, length, contains, All, All-mono,
  All-get_or,
}
use chirpstack_network_serve.Prelude.Int.{ℤ, negsuc, ltb_ℤ}
use chirpstack_network_serve.Lorawan.{LinkAdrReq}
use chirpstack_network_serve.Lorawan.Band.{Band, DataRate}
use chirpstack_network_serve.AdrTypes.{HandleRequest, HandleResponse}
use chirpstack_network_serve.Adr.Default.{unchanged}
use chirpstack_network_serve.Adr.LrFhss.{
  get_median, is_lr_fhss, has_coding_rate, lr_fhss_data_rates, with_coding_rate, candidates,
  first_nonempty, respond, handle,
}

-- The data-rate i is enabled, at most max_dr, and LR-FHSS with the coding-rate.
pub record IsCandidate (band : Band LinkAdrReq) (max_dr : ℕ) (rate : String) (i : ℕ) : Type 0 where
  pub enabled : contains band.get_enabled_uplink_data_rates i ≡ true
  pub at_most : i ≤ max_dr
  pub data_rate : DataRate
  pub found : band.get_data_rate i ≡ some data_rate
  pub lr_fhss : is_lr_fhss data_rate.modulation ≡ true
  pub coding_rate : has_coding_rate data_rate rate ≡ true

-- The same of an entry of the map, whose coding-rate is not yet compared.
record IsEntry (band : Band LinkAdrReq) (max_dr : ℕ) (e : ℕ × DataRate) : Type 0 where
  enabled : contains band.get_enabled_uplink_data_rates e.0 ≡ true
  at_most : e.0 ≤ max_dr
  found : band.get_data_rate e.0 ≡ some e.1
  lr_fhss : is_lr_fhss e.1.modulation ≡ true

module _ (band : Band LinkAdrReq) (max_dr : ℕ) where
  entries_cons :
      (i : ℕ) (d : DataRate) (ds : List (ℕ × DataRate))
      → contains band.get_enabled_uplink_data_rates i ≡ true
      → band.get_data_rate i ≡ some d
      → All (IsEntry band max_dr) ds
      → All
          (IsEntry band max_dr)
          (if leb i max_dr && is_lr_fhss d.modulation then (i, d) ∷ ds else ds)
  entries_cons i d ds c e a = elim (Bool-cases (leb i max_dr && is_lr_fhss d.modulation)) [
    | inl h ↦
        rw h (record { enabled = c; at_most = ground arith; found = e; lr_fhss = ground arith }, a)
    | inr h ↦ rw h a
  ]

  lr_fhss_data_rates-entries :
      (is : List ℕ) (ds : List (ℕ × DataRate))
      → ((j : ℕ) → contains is j ≡ true → contains band.get_enabled_uplink_data_rates j ≡ true)
      → lr_fhss_data_rates band max_dr is ≡ some ds
      → All (IsEntry band max_dr) ds
  unfolding lr_fhss_data_rates
  lr_fhss_data_rates-entries [] ds c h =
      let e : [] ≡ ds = cc in subst (All (IsEntry band max_dr)) e tt
  lr_fhss_data_rates-entries (i ∷ is) ds c h = elim (Option-cases (band.get_data_rate i)) [
    | inl e ↦ absurd (ground (arith, e))
    | inr (d, e) ↦ elim (Option-cases (lr_fhss_data_rates band max_dr is)) [
      | inl f ↦ absurd (ground (arith, e, f))
      | inr (rest, f) ↦
          let ih = lr_fhss_data_rates-entries is rest (λ j k. c j (ground arith)) f in
          let here = entries_cons i d rest (c i (ground arith)) e ih in
          subst (All (IsEntry band max_dr)) (ground (arith, e, f)) here
    ]
  ]

  with_coding_rate-candidates :
      (rate : String) (ds : List (ℕ × DataRate))
      → All (IsEntry band max_dr) ds
      → All (IsCandidate band max_dr rate) (with_coding_rate rate ds)
  unfolding with_coding_rate
  with_coding_rate-candidates rate [] a = tt
  with_coding_rate-candidates rate ((i, d) ∷ ds) a = elim (Bool-cases (has_coding_rate d rate)) [
    | inl h ↦ rw h (
      record {
        enabled = a.0.enabled;
        at_most = a.0.at_most;
        data_rate = d;
        found = a.0.found;
        lr_fhss = a.0.lr_fhss;
        coding_rate = h;
      },
      with_coding_rate-candidates rate ds a.1,
    )
    | inr h ↦ rw h (with_coding_rate-candidates rate ds a.1)
  ]

  -- The chosen data-rate: coding-rate 4/6 only after a full history whose median is at least -130.
  abbrev pub Chosen : ℤ → ℕ → ℕ → Type 0
  Chosen median history_length i =
      ((ltb_ℤ median (negsuc 129) ≡ false)
        × (history_length ≡ 20)
        × IsCandidate band max_dr "4/6" i)
      ⊎ IsCandidate band max_dr "1/3" i

  All-first_nonempty :
      (P : ℕ → Type 0) (xs ys : List ℕ) → All P xs → All P ys → All P (first_nonempty xs ys)
  All-first_nonempty P [] ys a b = b
  All-first_nonempty P (x ∷ xs) ys a b = a

  candidates-Chosen :
      (median : ℤ) (n : ℕ) (ds : List (ℕ × DataRate))
      → All (IsEntry band max_dr) ds
      → All (Chosen median n) (candidates median n ds)
  unfolding candidates
  candidates-Chosen median n ds a =
      let full = not (ltb_ℤ median (negsuc 129)) && n == 20 in
      let slow : All (Chosen median n) (with_coding_rate "1/3" ds) =
        All-mono {Q = Chosen median n} _ (λ i c. inr c) (with_coding_rate-candidates "1/3" ds a) in
      elim (Bool-cases full) [
        | inl e ↦ rw e (
            All-first_nonempty (Chosen median n) (with_coding_rate "4/6" ds)
              (with_coding_rate "1/3" ds)
              (All-mono {Q = Chosen median n} _ (λ i c. inl (ground arith, ground arith, c))
                (with_coding_rate-candidates "4/6" ds a))
              slow)
        | inr e ↦ rw e slow
      ]

  respond-Chosen :
      (req : HandleRequest) (pick : ℕ → ℕ) (median : ℤ) (n : ℕ) (is : List ℕ)
      → ((k : ℕ) → 0 < k → pick k < k)
      → All (Chosen median n) is
      → (respond req pick is ≡ unchanged req)
        ⊎ (((respond req pick is).tx_power_index ≡ 0)
            × ((respond req pick is).nb_trans ≡ 1)
            × Chosen median n (respond req pick is).dr)
  respond-Chosen req pick median n [] p a = inl refl
  respond-Chosen req pick median n (i ∷ is) p a = inr (
    refl,
    refl,
    All-get_or (Chosen median n) (i ∷ is) (pick (length (i ∷ is))) 0
        (p (length (i ∷ is)) (omega arith)) a,
  )

-- For a random choice within its range, the answer is the current values, or power index 0, one
-- transmission and a data-rate that is enabled, at most MaxDR and LR-FHSS: with coding-rate 4/6
-- only if the history is full and its median RSSI is at least -130, and else with coding-rate 1/3.
pub handle-Chosen :
    (band : Band LinkAdrReq) (pick : ℕ → ℕ) (req : HandleRequest) (resp : HandleResponse)
    → ((k : ℕ) → 0 < k → pick k < k)
    → handle band pick req ≡ some resp
    → (resp ≡ unchanged req)
      ⊎ ((resp.tx_power_index ≡ 0)
          × (resp.nb_trans ≡ 1)
          × Chosen band req.max_dr
              (get_median req.uplink_history)
              (length req.uplink_history)
              resp.dr)
unfolding handle
handle-Chosen band pick req resp p h =
    elim (Option-cases (lr_fhss_data_rates band req.max_dr band.get_enabled_uplink_data_rates)) [
      | inl e ↦ inl (ground (arith, e))
      | inr (ds, e) ↦
          let median = get_median req.uplink_history in
          let n = length req.uplink_history in
          let cs = candidates median n ds in
          let entries =
            lr_fhss_data_rates-entries band req.max_dr band.get_enabled_uplink_data_rates ds
              (λ j k. k) e in
          let cases : (resp ≡ unchanged req) ⊎ (respond req pick cs ≡ resp) = ground (arith, e) in
          elim cases [
            | inl u ↦ inl u
            | inr r ↦
                subst
                  (λ x.
                    (x ≡ unchanged req)
                    ⊎ ((x.tx_power_index ≡ 0)
                        × (x.nb_trans ≡ 1)
                        × Chosen band req.max_dr median n x.dr))
                  r
                  (respond-Chosen band req.max_dr req pick median n cs p
                    (candidates-Chosen band req.max_dr median n ds entries))
          ]
    ]
