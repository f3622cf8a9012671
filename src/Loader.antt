-- ===== src/Loader.antt =====
-- The loader's plan and its scheduler (src/pg_perf_bench/initialization.py).
mod Plan
mod Schedule
pub mod Batches
mod Prepare
pub mod Durable
pub mod Sound
pub mod Orderly
pub mod Scanning
pub mod Workers
pub mod Ends
unfoldable pub use Plan.*
unfoldable pub use Schedule.*
unfoldable pub use Prepare.*
