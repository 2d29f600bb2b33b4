-- ===== src/Store.antt =====
-- internal/store: what the code reads and writes in the tables.
pub mod Accounts
pub mod History
pub mod Outbox
