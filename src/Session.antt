-- ===== src/Session.antt =====
-- The operations on device-sessions of internal/storage/device_session.go.
pub mod FCnt
pub mod History
pub mod Loss
pub mod Boot
pub mod Lookup
