-- ===== src/Config.antt =====
-- The configuration of a run (src/pg_perf_bench/config.py).
pub mod Checks
pub mod Host
pub mod Workload
pub mod Initialization
pub mod Records
pub mod Build
pub mod Accepted
pub mod Safe
pub mod Accept
pub mod Connect
pub mod ReportName
pub mod Protocol
pub mod Nesting
pub mod Uniform
