-- ===== src/Tests.antt =====
-- The examples: one for each theorem that has hypotheses, at concrete inputs.
mod Sample
mod Sessions
mod Commands
mod Timing
mod Rates
mod Downlinks
mod Uplinks
mod Flows
mod Queues
mod Acks
mod Payloads
