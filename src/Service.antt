-- ===== src/Service.antt =====
-- internal/service: the calls that the handlers make.
pub mod Batches
pub mod Scan
pub mod Comparison
pub mod Tracing
pub mod Snapshots
pub mod Statistics
pub mod Preserves
pub mod Atomic
