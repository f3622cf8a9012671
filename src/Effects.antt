-- ===== src/Effects.antt =====
-- What a run does to the outside, and the monad in which the operations are written.
--
-- A call of asyncpg, of the host transport, of the file system or of the clock is a `Call`. What it
-- returns or raises is decided by an environment, which sees all earlier events: a pooler, a crash,
-- a cancellation or a competing client is some environment. Every call that is attempted leaves an
-- event, newest first, so theorems range over every behaviour of the outside.
mod Calls
mod Monad
pub mod Rules
pub use Calls.*
unfoldable pub use Monad.*
