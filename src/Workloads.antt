-- ===== src/Workloads.antt =====
-- The bundled workload profiles (src/pg_perf_bench/workloads.py).
pub mod Profile
pub mod Loaded
