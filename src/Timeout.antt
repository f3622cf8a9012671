-- ===== src/Timeout.antt =====
-- The SQL timeout of a workload command (src/pg_perf_bench/workload_timeout.py).
pub mod Scripts
pub mod Aligned
