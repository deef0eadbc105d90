-- ===== src/Uplink.antt =====
-- The tasks of an uplink in internal/uplink/data/data.go.
pub mod Commands
pub mod Flow
