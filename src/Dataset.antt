-- ===== src/Dataset.antt =====
-- An existing dataset, and the winning point of a matrix: `validate_existing_dataset`
-- (src/pg_perf_bench/init_policy.py) and `maximum_tps` (src/pg_perf_bench/benchmark.py).
mod Existing
mod Maximum
pub mod Usable
pub mod Best
unfoldable pub use Existing.*
unfoldable pub use Maximum.*
