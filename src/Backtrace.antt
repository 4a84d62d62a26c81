-- ===== src/Backtrace.antt =====
-- internal/backtrace: the graph of reads and writes, and the search for the first divergence.
pub mod Graph
pub mod Tracer
