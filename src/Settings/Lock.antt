-- ===== src/Settings/Lock.antt =====
-- The server lock, the connection that holds it, and the host
-- (src/pg_perf_bench/initialization_settings.py).
use pg_perf_bench.Prelude.{Bool, false, not, ◌&&◌, ◌||◌, String, List, true, if◌then◌else◌}
use pg_perf_bench.Effects.{
  Exc, Identity, Value, Call, Command, Statement, Env, M, pure, raise, gets, modify, raise_if,
  or_raise, when, ◌>>=◌, ◌>>◌, try_finally, call,
}
use pg_perf_bench.Settings.Session.{is_managed, Settings, is_true, leave_session, enter_session}
use pg_perf_bench.Settings.Identity.{confirm_host}

module _ (env : Env) where
  abbrev pub control : Statement → M Settings Value
  control s = call env (Call.control s)

  -- `_acquire_lock`
  unfoldable pub acquire_lock : M Settings (Unit {0})
  acquire_lock = do
    mine ← control Statement.try_advisory_lock
    raise_if (not (is_true mine)) Exc.configuration
    modify (λ s. record s { lock_acquired = true })
    others ← control Statement.foreign_lock
    raise_if (is_true others) Exc.configuration

  -- The first test of `assert_held`; `or` asks the connection only where there is one.
  unfoldable pub is_usable : M Settings Bool
  is_usable = do
    s ← gets (λ s. s)
    if s.db
        then (do
          closed ← call env Call.control_is_closed
          pure (not (is_true closed) && s.lock_acquired))
        else pure false

  unfoldable pub assert_held : M Settings (Unit {0})
  unfolding is_usable
  assert_held = do
    usable ← is_usable
    raise_if (not usable) Exc.configuration
    held ← control Statement.held_here
    raise_if (not (is_true held)) Exc.configuration

  -- `_connect`
  unfoldable pub connect_control : M Settings (Unit {0})
  connect_control = do
    modify (λ s. record s { session = true; entered = false })
    enter_session env
    modify (λ s. record s { db = true; entered = true })

  unfoldable pub unlock : M Settings (Unit {0})
  unlock = do
    s ← gets (λ s. s)
    if s.lock_acquired && s.db
        then (do
          closed ← call env Call.control_is_closed
          when (not (is_true closed)) (control Statement.advisory_unlock >> pure tt))
        else pure tt

  unfoldable pub drop_session : M Settings (Unit {0})
  drop_session = do
    modify (λ s. record s { lock_acquired = false })
    s ← gets (λ s. s)
    try_finally (when s.session (when s.entered (leave_session env)))
        (modify (λ s. record s { db = false; session = false; entered = false }))

  -- `_disconnect`
  unfoldable pub disconnect_control : M Settings (Unit {0})
  unfolding unlock drop_session
  disconnect_control = try_finally unlock drop_session

  -- `_sync`
  unfoldable pub sync_host : M Settings (Unit {0})
  sync_host = do
    s ← gets (λ s. s)
    raise_if (is_managed s.connection_type || not s.has_connection) Exc.configuration
    call env (Call.host_command Command.sync)
    pure tt

  unfoldable pub identify_host : Identity → List String → M Settings Identity
  unfolding confirm_host
  identify_host i pid = do
    lines ← call env (Call.host_command Command.host_identity)
    or_raise (confirm_host i pid lines) Exc.configuration

  unfoldable pub identified : Settings → Value → M Settings Identity
  unfolding identify_host
  identified s (Value.identity_row i pid) =
      if not (is_managed s.connection_type) && s.has_connection then identify_host i pid else pure i
  identified s _ = raise Exc.external

  -- `_identity`; a reply that is no row is the `TypeError` of `dict(None)`.
  unfoldable pub identify : M Settings Identity
  unfolding identified
  identify = do s ← gets (λ s. s); row ← control Statement.identity; identified s row
