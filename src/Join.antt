-- ===== src/Join.antt =====
-- The join of reports: its catalog of tasks (src/pg_perf_bench/join_catalog.py) and the comparison of
-- two reports (src/pg_perf_bench/join.py).
pub mod Catalog
pub mod Tasks
pub mod Compare
pub mod Agree
