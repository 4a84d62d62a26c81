-- ===== src/Httpapi.antt =====
-- internal/httpapi: the HTTP interface over the service.
pub mod Router
pub mod Batches
pub mod Trails
pub mod Comparisons
pub mod Snapshots
pub mod System
pub mod Routes
pub mod Keeping
pub mod Reached
pub mod Answers
