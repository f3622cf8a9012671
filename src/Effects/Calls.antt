-- ===== src/Effects/Calls.antt =====
-- Exceptions by class, the values that calls return, and the calls themselves.
use pg_perf_bench.Prelude.{ℕ, Bool, String, Option, List, true, false}

-- The classes that the code tells apart: `authorization` and `privilege` are asyncpg's
-- `InvalidAuthorizationSpecificationError` and `InsufficientPrivilegeError`, `permission` is
-- `PermissionError`, `interface` is asyncpg's `InterfaceError`, which is no `PostgresError`, `external`
-- stands for the other errors of PostgreSQL and of the system, `stalled` for a loop of the model whose fuel has run out.
pub data Exc : Type 0 where
  configuration collection permission connection runtime : Exc
  authorization privilege external interface cancelled stalled : Exc

-- `except Exception`: `asyncio.CancelledError` is a `BaseException` only.
abbrev pub is_ordinary : Exc → Bool
is_ordinary Exc.cancelled = false
is_ordinary Exc.stalled = false
is_ordinary _ = true

-- The row of `_identity`, and the same with the host's own answer.
pub record Identity : Type 0 where
  pub system_identifier : String
  pub address : String
  pub port : ℕ
  pub data_directory : String
  pub host : Option (String × String)

-- A recovery journal, `self.original`.
pub record Journal : Type 0 where
  pub identity : Identity
  pub fsync : String
  pub auto_value : Option String

-- A row of `pg_stat_replication`, as `_replica_keys` reads it.
pub record ReplicaRow : Type 0 where
  pub application_name : String
  pub state : Option String
  pub address : String
  pub slot_name : Option String

pub data Value : Type 0 where
  nothing : Value
  truth : Bool → Value
  number : ℕ → Value
  text : String → Value
  texts : List String → Value
  identity_row : Identity → (postmaster_pid : List String) → Value
  journals : List (String × Journal) → Value
  replica_rows : List ReplicaRow → Value

-- Commands on the database host or on the local machine, named for what they do.
pub data Command : Type 0 where
  pg_ctl : (action : String) → Command
  sync drop_caches host_identity : Command

-- Statements on the control connection of `InitializationSettings`.
pub data Statement : Type 0 where
  try_advisory_lock foreign_lock held_here advisory_unlock : Statement
  in_recovery is_superuser identity auto_value fsync_source show_fsync : Statement
  reset_fsync reload_conf checkpoint wal_insert_lsn replication_privilege : Statement
  set_fsync : (value : String) → Statement
  replication : (target : Option String) → Statement
  drop_schemas : List String → Statement
  set_lock_timeout transaction_read_only create_privilege : Statement
  unowned_schemas : List String → Statement
  probe_create probe_unlogged probe_logged : Statement

pub data Call : Type 0 where
  -- the control connection: `asyncpg.connect`, a statement, `is_closed`, `close`
  control_connect : (database : String) → Call
  control : Statement → Call
  current_setting : (name : String) → Call
  set_config : (name value : String) → Call
  control_is_closed control_close : Call
  transaction_start transaction_commit transaction_rollback : Call
  -- a short-lived connection of `DBTasks`
  connect : (database : String) → Call
  select_one disconnect : Call
  terminate_backends drop_database : (database : String) → Call
  create_database : (database owner : String) → Call
  postmaster_start_time recovery_state : Call
  -- the host and the container
  host_command local_command : Command → Call
  container_start container_stop : Call
  patroni_command : (action : String) → Call
  -- the journal directory
  journal_list make_directory fsync_directory : Call
  journal_create : (path : String) → Journal → Call
  journal_fsync journal_unlink : (path : String) → Call
  -- the progress file and the configuration file
  checkpoint_write : (status : String) → (completed : ℕ) → Call
  checkpoint_replace send_config : Call
  -- time
  monotonic : Call
  sleep : (milliseconds : ℕ) → Call

pub data Reply : Type 0 where
  returns : Value → Reply
  raises : Exc → Reply

pub record Event : Type 0 where
  pub call : Call
  pub reply : Reply

-- The outside: an answer to each call, given the events so far.
abbrev pub Env : Type 0
Env = List Event → Call → Reply
