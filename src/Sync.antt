-- ===== src/Sync.antt =====
-- internal/sync: the alignment of the two trails.
pub mod Aligner
