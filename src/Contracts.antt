-- ===== src/Contracts.antt =====
-- What goes into an artifact without its secrets (src/pg_perf_bench/contracts.py).
pub mod Redaction
pub mod Replacement
pub mod Secrets
pub mod Mapping
