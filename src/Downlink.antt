-- ===== src/Downlink.antt =====
-- The MAC commands that the network server sends with a downlink: internal/downlink/data/data.go
-- and internal/channels/channels.go.
pub mod Requests
pub mod Filter
pub mod Select
pub mod Window
pub mod NextItem
pub mod Payload
pub mod AdrChange
