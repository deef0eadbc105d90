-- ===== src/Adr.antt =====
-- The ADR algorithms of internal/adr, for the interface of adr/structs.go. Data-rates, indices and
-- counts are natural numbers; nStep and the RSSI values are integers.
pub mod Default
pub mod LrFhss
pub mod LoraLrFhss
