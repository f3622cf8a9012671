-- ===== src/Clients.antt =====
-- The local client tools (src/pg_perf_bench/client_tools.py).
mod Tools
pub mod Latest
unfoldable pub use Tools.*
