-- ===== src/Store.antt =====
-- internal/store: the tables, their statements and the transaction.
pub mod World
pub mod Events
pub mod Rows
pub mod Fingerprints
pub mod Dependencies
pub mod Divergences
pub mod Snapshots
pub mod Consistent
