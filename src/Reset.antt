-- ===== src/Reset.antt =====
-- One reset of the benchmark environment: the service operations of each transport
-- (src/pg_perf_bench/db_operations/conn_tasks), Patroni
-- (src/pg_perf_bench/db_operations/patroni.py) and `reset_db_environment`
-- (src/pg_perf_bench/benchmark.py).
mod Host
mod Environment
unfoldable pub use Host.*
unfoldable pub use Environment.*
