-- ===== src/Runner.antt =====
-- The iterations of a benchmark: `run_benchmark_iterations`, `_run_benchmark_iterations` and
-- `write_checkpoint` (src/pg_perf_bench/benchmark.py).
mod State
mod Loop
pub mod Held
pub mod Release
pub mod Points
pub mod Results
unfoldable pub use State.*
unfoldable pub use Loop.*
