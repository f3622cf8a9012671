-- ===== src/Measure.antt =====
-- One measured point: `run_benchmark_with_evidence` (src/pg_perf_bench/benchmark.py).
mod Run
pub mod Completed
unfoldable pub use Run.*
