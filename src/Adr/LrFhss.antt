-- ===== src/Adr/LrFhss.antt =====
-- LRFHSSHandler and getMedian of internal/adr/lr_fhss.go. The random choice is a parameter: a
-- number below the length of the candidates.
pub mod Choice
use text.Mathlib.Text.{◌==◌ as str_eq}
use chirpstack_network_serve.Prelude.{
  ℕ, zero, suc, ◌-◌, ◌/◌, ◌%◌, String, ◌≡◌, Bool, true, false, not, ◌&&◌, Option, none, some, List,
  [], ◌∷◌, leb, ◌==◌, if◌then◌else◌, length, get_or,
}
use chirpstack_network_serve.Prelude.Int.{ℤ, pos, negsuc, ◌+ℤ◌, ltb_ℤ, leb_ℤ, half_ℤ}
use chirpstack_network_serve.Lorawan.{LinkAdrReq}
use chirpstack_network_serve.Lorawan.Band.{Band, Modulation, DataRate, lr_fhss}
use chirpstack_network_serve.AdrTypes.{UplinkMetaData, HandleRequest, HandleResponse}
use chirpstack_network_serve.Adr.Default.{unchanged}

-- sort.Ints
insert_sorted : ℤ → List ℤ → List ℤ
insert_sorted a [] = a ∷ []
insert_sorted a (x ∷ xs) =
    let rest = insert_sorted a xs in if leb_ℤ a x then a ∷ x ∷ xs else x ∷ rest

-- The sorted RSSI values of the history.
unfoldable pub sorted_rssi : List UplinkMetaData → List ℤ
unfolding insert_sorted
sorted_rssi [] = []
sorted_rssi (m ∷ ms) = insert_sorted m.max_rssi (sorted_rssi ms)

-- getMedian
unfoldable pub get_median : List UplinkMetaData → ℤ
unfolding sorted_rssi ◌+ℤ◌ half_ℤ
get_median [] = pos 0
get_median (u ∷ us) =
    let rssi = sorted_rssi (u ∷ us) in
    let m = length rssi / 2 in
    if length rssi % 2 == 0
    then half_ℤ (get_or rssi (m - 1) (pos 0) +ℤ get_or rssi m (pos 0))
    else get_or rssi m (pos 0)

abbrev pub is_lr_fhss : Modulation → Bool
is_lr_fhss lr_fhss = true
is_lr_fhss _ = false

abbrev pub has_coding_rate : DataRate → String → Bool
has_coding_rate d rate = str_eq d.coding_rate rate

-- The LR-FHSS data-rates among the enabled ones, up to MaxDR; `none` is the error of GetDataRate.
-- Go keeps them in a map, whose order is not determined; here they stand as they were found.
unfoldable pub lr_fhss_data_rates : Band LinkAdrReq → ℕ → List ℕ → Option (List (ℕ × DataRate))
lr_fhss_data_rates band max_dr [] = some []
lr_fhss_data_rates band max_dr (i ∷ is) =
    let rest = lr_fhss_data_rates band max_dr is in
    elim (band.get_data_rate i) [
      | none ↦ none
      | some d ↦ elim rest [
        | none ↦ none
        | some ds ↦ some (if leb i max_dr && is_lr_fhss d.modulation then (i, d) ∷ ds else ds)
      ]
    ]

-- The data-rates with the coding-rate.
unfoldable pub with_coding_rate : String → List (ℕ × DataRate) → List ℕ
with_coding_rate rate [] = []
with_coding_rate rate ((i, d) ∷ ds) =
    let rest = with_coding_rate rate ds in if has_coding_rate d rate then i ∷ rest else rest

abbrev pub first_nonempty : List ℕ → List ℕ → List ℕ
first_nonempty [] ys = ys
first_nonempty (x ∷ xs) ys = x ∷ xs

-- The candidates: coding-rate 4/6 where the median is good and the history full, else 1/3.
unfoldable pub candidates : ℤ → ℕ → List (ℕ × DataRate) → List ℕ
candidates median history_length ds =
    first_nonempty
      (if not (ltb_ℤ median (negsuc 129)) && history_length == 20
        then with_coding_rate "4/6" ds
        else [])
      (with_coding_rate "1/3" ds)

-- The answer with the chosen data-rate, if there is a candidate.
abbrev pub respond : HandleRequest → (ℕ → ℕ) → List ℕ → HandleResponse
respond req pick [] = unchanged req
respond req pick (i ∷ is) = record {
  dr = get_or (i ∷ is) (pick (length (i ∷ is))) 0;
  tx_power_index = 0;
  nb_trans = 1;
}

-- Handle; `pick n` is r.Intn(n), and `none` is the error of GetDataRate.
unfoldable pub handle : Band LinkAdrReq → (ℕ → ℕ) → HandleRequest → Option HandleResponse
handle band pick req =
    if not req.adr then some (unchanged req) else elim (band.get_data_rate req.dr) [
      | none ↦ none
      | some dr ↦
          let median = get_median req.uplink_history in
          if is_lr_fhss dr.modulation && has_coding_rate dr "4/6"
          then some (unchanged req)
          else if ltb_ℤ median (negsuc 129) && is_lr_fhss dr.modulation && has_coding_rate dr "1/3"
          then some (unchanged req)
          else elim (lr_fhss_data_rates band req.max_dr band.get_enabled_uplink_data_rates) [
            | none ↦ none
            | some ds ↦ some (respond req pick (candidates median (length req.uplink_history) ds))
          ]
    ]
