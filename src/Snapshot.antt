-- ===== src/Snapshot.antt =====
-- internal/snapshot: what a locating snapshot freezes, and its replacement.
pub mod Publisher
