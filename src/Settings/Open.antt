-- ===== src/Settings/Open.antt =====
-- `open`, `reopen_after_restart`, `close`, and the replicas that count as ready
-- (src/pg_perf_bench/initialization_settings.py).
use pg_perf_bench.Prelude.{
  Bool, true, false, not, ◌&&◌, ◌||◌, String, Option, none, some, List, [], ◌∷◌, str_eq, any, map,
  if◌then◌else◌,
}
use pg_perf_bench.Effects.{
  Exc, Identity, Journal, ReplicaRow, Value, Call, Statement, Env, M, pure, raise, gets, modify,
  raise_if, when, ◌>>=◌, ◌>>◌, try_finally, on_error, except, call,
}
use pg_perf_bench.Settings.Session.{is_managed, Settings, is_true, is_text}
use pg_perf_bench.Settings.Identity.{
  Found, nowhere, refused, at_path, member_identity, matching, only,
}
use pg_perf_bench.Settings.Lock.{
  control, acquire_lock, connect_control, disconnect_control, sync_host, identify,
}
use pg_perf_bench.Settings.Fsync.{restore}

abbrev pub is_hidden : ReplicaRow → Bool
is_hidden row = elim (row.state) [ none ↦ true | some _ ↦ false ]

-- A physical slot names a replica; without one, the application and the address do.
abbrev pub replica_key : ReplicaRow → List String
replica_key row = elim (row.slot_name) [
  | some slot ↦ "slot" ∷ slot ∷ []
  | none ↦ "connection" ∷ row.application_name ∷ row.address ∷ []
]

abbrev pub rows_of : Value → List ReplicaRow
rows_of (Value.replica_rows rows) = rows
rows_of _ = []

abbrev pub journals_of : Value → List (String × Journal)
journals_of (Value.journals found) = found
journals_of _ = []

-- asyncpg's `InsufficientPrivilegeError` is reported as a configuration error; others pass.
abbrev pub as_configuration : Exc → Exc
as_configuration Exc.privilege = Exc.configuration
as_configuration e = e

-- `digest` is the name of the journal's file, a SHA-256 of the member's identity.
module _ (env : Env) (digest : Identity → String) where
  -- `_replica_keys`, a `Counter` as the list of its keys with their repetitions
  unfoldable pub replica_keys : Option String → M Settings (List (List String))
  replica_keys target = do
    reply ← control env (Statement.replication target)
    raise_if (any is_hidden (rows_of reply)) Exc.configuration
    pure (map replica_key (rows_of reply))

  unfoldable pub find_journal : M Settings Found
  find_journal = do
    i ← identify env
    modify (λ s. record s { identity = some i; state_path = some (digest (member_identity i)) })
    files ← call env Call.journal_list
    pure (only (matching i (journals_of files)))

  -- Recovery of what an interrupted run has left.
  unfoldable pub recover : Found → M Settings (Unit {0})
  recover nowhere = pure tt
  recover refused = raise Exc.configuration
  recover (at_path path journal) = do
    modify (λ s. record s { state_path = some path })
    s ← gets (λ s. s)
    raise_if (is_managed s.connection_type || not s.has_connection) Exc.configuration
    modify (λ s'. record s' { original = some journal; changed = true })
    restore env

  -- What only a superuser can do and check.
  unfoldable pub settle_fsync : (off pending : Bool) → M Settings (Unit {0})
  unfolding find_journal recover
  settle_fsync off pending = do
    found ← (if off || pending then find_journal else pure nowhere)
    recover found
    when off (do
      source ← control env Statement.fsync_source
      raise_if (is_text source "command line") Exc.configuration
      sync_host env)

  unfoldable pub check_replication : M Settings (Unit {0})
  unfolding replica_keys
  check_replication =
      except
        (do
          keys ← replica_keys none
          modify (λ s. record s { replicas = keys })
          control env Statement.wal_insert_lsn
          control env Statement.show_fsync
          pure tt)
        (λ e. raise (as_configuration e))

  unfoldable pub prepare : Bool → M Settings (Unit {0})
  unfolding settle_fsync check_replication
  prepare recover_only = do
    standby ← control env Statement.in_recovery
    raise_if (is_true standby) Exc.configuration
    acquire_lock env
    superuser ← control env Statement.is_superuser
    pending ← call env Call.journal_list
    raise_if (is_true pending && not (is_true superuser)) Exc.configuration
    s ← gets (λ s. s)
    let off = str_eq s.options.fsync "off"
    raise_if (off && (is_managed s.connection_type || not s.has_connection)) Exc.configuration
    raise_if (off && not (is_true superuser)) Exc.configuration
    when (is_true superuser) (settle_fsync off (is_true pending))
    when (not recover_only) check_replication

  -- `open`
  unfoldable pub open_settings : Bool → M Settings (Unit {0})
  unfolding prepare
  open_settings recover_only = do
    modify (λ s. record s { recover_only = recover_only })
    connect_control env
    on_error (prepare recover_only) (disconnect_control env)

  -- `reopen_after_restart`
  unfoldable pub reopen_after_restart : M Settings (Unit {0})
  unfolding open_settings
  reopen_after_restart = do disconnect_control env; s ← gets (λ s. s); open_settings s.recover_only

  -- `close`; `close_initialization_settings` only shields it from a cancellation.
  unfoldable pub close : M Settings (Unit {0})
  close = try_finally (restore env) (disconnect_control env)
