-- ===== src/Trace.antt =====
-- internal/trace: import of trail fragments and their validation.
pub mod Importer
pub mod Validator
