-- ===== src/Model.antt =====
-- internal/model: the entities of the service, their errors and their state machines.
pub mod Errors
pub mod Status
pub mod Batch
pub mod Event
pub mod Checkpoint
pub mod Snapshot
pub mod Exec
pub mod Divergence
