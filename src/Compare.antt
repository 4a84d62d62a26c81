-- ===== src/Compare.antt =====
-- internal/compare: state fingerprints, replay of events, scopes, and the comparison of two states.
pub mod Hash
pub mod Replay
pub mod Scope
pub mod Diff
pub mod Comparator
