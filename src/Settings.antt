-- ===== src/Settings.antt =====
-- `class InitializationSettings` (src/pg_perf_bench/initialization_settings.py): the control
-- connection that holds the server lock, and the temporary `fsync` setting with its journal.
mod Session
mod Identity
mod Lock
mod Fsync
mod Open
mod Replicas
pub mod Durable
unfoldable pub use Session.*
unfoldable pub use Identity.*
unfoldable pub use Lock.*
unfoldable pub use Fsync.*
unfoldable pub use Replicas.*
unfoldable pub use Open.*
