-- ===== src/Tests/Rates.antt =====
-- Examples for the modules under Adr.
use chirpstack_network_serve.Prelude.{
  ℕ, ◌≡◌, ◌⊎◌, refl, true, false, Option, some, [], ◌∷◌, ◌==◌, if◌then◌else◌,
}
use chirpstack_network_serve.Prelude.Int.{negsuc}
use Prim.Native.Nat.{min}
use chirpstack_network_serve.Lorawan.{LinkAdrReq}
use chirpstack_network_serve.Lorawan.Band.{Band, DataRate, lora, lr_fhss}
use chirpstack_network_serve.AdrTypes.{UplinkMetaData, HandleRequest, HandleResponse}
use chirpstack_network_serve.Adr.Default
use chirpstack_network_serve.Adr.Default.{
  get_max_snr, get_history_count, get_ideal_tx_power_index_and_dr, steps_up, steps_down,
  get_nb_trans, lost_packets, get_packet_loss_percentage, n_step, adapt, unchanged, max_lora_dr,
}
use chirpstack_network_serve.Adr.Default.Bounds.{IsWithin, IsLimit, handle-IsWithin}
use chirpstack_network_serve.Adr.LrFhss
use chirpstack_network_serve.Adr.LrFhss.{
  get_median, sorted_rssi, lr_fhss_data_rates, with_coding_rate, candidates,
}
use chirpstack_network_serve.Adr.LrFhss.Choice.{Chosen, handle-Chosen}
use chirpstack_network_serve.Tests.Sample.{sample_band, sample_float}

abbrev meta : ℕ → ℕ → UplinkMetaData
meta f snr = record {
  f_cnt = f;
  max_snr = snr;
  max_rssi = negsuc 99;
  tx_power_index = 0;
  gateway_count = 1;
}

-- The best SNR is 5, 25 above what data-rate 0 requires, with a margin of 10.
abbrev request : HandleRequest
request = record {
  adr = true;
  dr = 0;
  tx_power_index = 0;
  nb_trans = 1;
  max_tx_power_index = 7;
  required_snr_for_dr = 980;
  installation_margin = 1010;
  min_dr = 0;
  max_dr = 5;
  uplink_history = meta 1 1000 ∷ meta 2 1005 ∷ [];
}

-- (25 - 10) / 3 is 5: five steps for the data-rate.
sample-handle :
    Default.handle sample_band sample_float request
    ≡ some (record { dr = 5; tx_power_index = 0; nb_trans = 1 })
unfolding Default.handle max_lora_dr adapt get_max_snr get_history_count
    get_ideal_tx_power_index_and_dr get_nb_trans get_packet_loss_percentage n_step steps_up
    steps_down
sample-handle = refl

handle-IsWithin_example :
    (request.adr ≡ false)
      × (record { dr = 5; tx_power_index = 0; nb_trans = 1 } ≡ unchanged request)
    ⊎ ((request.adr ≡ true)
        × ((max_lora : ℕ) × IsLimit sample_band sample_band.get_enabled_uplink_data_rates max_lora
            × IsWithin request
                (min request.max_dr max_lora)
                (record { dr = 5; tx_power_index = 0; nb_trans = 1 })))
handle-IsWithin_example =
    handle-IsWithin sample_band sample_float request
      (record { dr = 5; tx_power_index = 0; nb_trans = 1 }) sample-handle

-- A band whose data-rate 8 is LR-FHSS.
abbrev fhss_rate : ℕ → Option DataRate
fhss_rate n =
    if n == 8
    then some (record {
      modulation = lr_fhss;
      spread_factor = 0;
      bandwidth = 0;
      coding_rate = "1/3";
      bit_rate = 0;
    })
    else some (record {
      modulation = lora;
      spread_factor = 12;
      bandwidth = 125;
      coding_rate = "";
      bit_rate = 0;
    })

abbrev fhss_band : Band LinkAdrReq
fhss_band = record sample_band {
  get_data_rate = fhss_rate;
  get_enabled_uplink_data_rates = 0 ∷ 8 ∷ [];
}

abbrev fhss_request : HandleRequest
fhss_request = record request { max_dr = 11 }

abbrev fhss_response : HandleResponse
fhss_response = record { dr = 8; tx_power_index = 0; nb_trans = 1 }

fhss-handle : LrFhss.handle fhss_band (λ k. 0) fhss_request ≡ some fhss_response
unfolding LrFhss.handle lr_fhss_data_rates with_coding_rate candidates get_median
fhss-handle = refl

handle-Chosen_example :
    (fhss_response ≡ unchanged fhss_request)
    ⊎ ((fhss_response.tx_power_index ≡ 0)
        × (fhss_response.nb_trans ≡ 1)
        × Chosen fhss_band 11 (get_median fhss_request.uplink_history) 2 8)
handle-Chosen_example =
    handle-Chosen fhss_band (λ k. 0) fhss_request fhss_response (λ k h. h) fhss-handle
