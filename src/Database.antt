-- ===== src/Database.antt =====
-- `class DBTasks` (src/pg_perf_bench/db_operations/db.py): statements on short-lived connections
-- that create, drop and probe the benchmark database, and the reset of schemas on the control
-- connection.
pub mod Names
pub mod Quoting
mod Tasks
unfoldable pub use Names.*
unfoldable pub use Tasks.*
