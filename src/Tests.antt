-- ===== src/Tests.antt =====
-- Runs of the program on small concrete inputs, and the theorems at such inputs.
mod Data
mod Rivals
mod Runs
mod Transfers
mod Integrity
mod Webhooks
mod History
mod Handlers
mod Leases
mod Currencies
mod Loads
mod Drivers
mod Outcomes
mod Histories
