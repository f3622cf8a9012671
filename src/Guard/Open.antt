-- ===== src/Guard/Open.antt =====
-- An `open` that returns has the server lock (src/pg_perf_bench/initialization_settings.py).
use pg_perf_bench.Prelude.{Bool, true, ◌≡◌, String, Option}
use pg_perf_bench.Effects.{Identity, Result, ok, err, Env, World}
use pg_perf_bench.Effects.Rules.{After}
use pg_perf_bench.Settings.{Settings, open_settings, reopen_after_restart}
use pg_perf_bench.Guard.{Guarded, confirmed, guard_protocol, held}
use pg_perf_bench.Guard.Lock.{guard_watch}
use pg_perf_bench.Guard.Fsync.{open_settings-Steps, reopen_after_restart-Steps}

module _ (own : Option String) where
  holds :
      (r : Result (Unit {0})) (w : World Settings)
      → After (guard_protocol own) held r w
      → r ≡ ok tt
      → Guarded own w.trace × (confirmed w.trace ≡ true)
  holds (ok _) w h q = h
  holds (err e) w h q = cc

  module _ (env : Env) (digest : Identity → String) (w : World Settings)
      (g : Guarded own w.trace) where
    -- An `open` that returns ends with the server lock confirmed, and made no destructive call
    -- without it on the way.
    pub open_settings-confirmed :
        (recover_only : Bool)
        → (open_settings env digest recover_only w).0 ≡ ok tt
        → let w' = (open_settings env digest recover_only w).1 in
          Guarded own w'.trace × (confirmed w'.trace ≡ true)
    open_settings-confirmed recover_only q =
        holds _ _
          ((open_settings-Steps own env (guard_watch own env) digest recover_only).at w (g, tt)) q

    -- After a restart that ended the session, a reopening that returns has the lock again.
    pub reopen_after_restart-confirmed :
        (reopen_after_restart env digest w).0 ≡ ok tt
        → let w' = (reopen_after_restart env digest w).1 in
          Guarded own w'.trace × (confirmed w'.trace ≡ true)
    reopen_after_restart-confirmed q =
        holds _ _ ((reopen_after_restart-Steps own env (guard_watch own env) digest).at w (g, tt)) q
