-- ===== src/MacCommand.antt =====
-- The handlers of MAC commands of internal/maccommand. A handler that changes `*DeviceSession`
-- returns the changed session beside its result, since the changes stand also where it fails.
pub mod Block
pub mod LinkAdr
pub mod NewChannel
pub mod Setup
pub mod Inform
pub mod Handle
