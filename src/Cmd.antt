-- ===== src/Cmd.antt =====
-- cmd/replaydivergence: the smoke test.
pub mod Smoke
