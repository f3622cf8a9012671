-- ===== src/Release/Controller.antt =====
-- What `open`, `close` and `initialize_database` leave open or held, whatever the outside answers
-- (src/pg_perf_bench/initialization_settings.py).
use pg_perf_bench.Prelude.{false, ℕ, zero, suc, Bool, ◌≡◌, refl, String, none}
use pg_perf_bench.Effects.{
  Exc, Identity, Result, ok, err, Env, World, M, continue, clean_up, modify, try_finally, on_error,
  ◌>>=◌, ◌>>◌,
}
use pg_perf_bench.Effects.Rules.{
  After, Steps, Steps-pure, Steps-raise, Steps-gets, Steps-raise_if, Steps-if, Steps-when, ◌▸◌, ◌⨟◌,
}
use pg_perf_bench.Settings.{
  Settings, LoadOptions, ConnectionType, Keys, create, disconnect_control, restore, prepare,
  open_settings, close, await_replicas, wait_for_replicas, load_data, initialize_database_alone,
}
use pg_perf_bench.Guard.{Knowledge, unknown, held, absent}
use pg_perf_bench.Guard.Fsync.{
  restore-Steps, prepare-Steps, disable-Steps, replica_keys-Steps, open_settings-Steps,
}
use pg_perf_bench.Release.{is_open, is_locked, IsReleased, IsTidy}
use pg_perf_bench.Release.Connection.{
  Held, weakened, tidy_protocol, quiet, changes, tidy_watch, disconnect_control-IsReleased,
  connect_control-IsTidy,
}

After-IsTidy :
    {A : Type 0} (k : Knowledge) (r : Result A) (w : World Settings)
    → After tidy_protocol k r w
    → IsTidy w
After-IsTidy k (ok a) w h = weakened k w h
After-IsTidy k (err e) w h = h

-- However a step ends, the attributes account for what is open and held.
pub ends-IsTidy :
    {A : Type 0} {k k' : Knowledge} {m : M Settings A}
    → Steps tidy_protocol k m k'
    → (w : World Settings) → Held k w
    → IsTidy (m w).1
ends-IsTidy {k' = k'} {m = m} s w h = After-IsTidy k' (m w).0 (m w).1 (s.at w h)

module _ (env : Env) (digest : Identity → String) where
  -- After `close`, however `restore` and the release end, no control connection is open, no server lock
  -- is held, and the attributes say so, if the attributes accounted for what was open and held before.
  pub close-IsReleased : (w : World Settings) → IsTidy w → IsReleased (close env digest w).1
  unfolding close try_finally
  close-IsReleased w h =
      disconnect_control-IsReleased env (restore env w).1
        (ends-IsTidy (restore-Steps none env (tidy_watch env none)) w h)

  clean_up-IsReleased :
      (r : Result (Unit {0})) (w : World Settings) {e : Exc}
      → IsTidy w
      → (clean_up r w (disconnect_control env)).0 ≡ err e
      → IsReleased (clean_up r w (disconnect_control env)).1
  clean_up-IsReleased (ok _) w tidy h = cc
  clean_up-IsReleased (err x) w tidy h = disconnect_control-IsReleased env w tidy

  module _ (recover_only : Bool) where
    prepared :
        (r : Result (Unit {0})) (w : World Settings) {e : Exc}
        → IsTidy w
        → ((x : Exc) → r ≡ err x → IsReleased w)
        → (continue r w
            (λ _. on_error (prepare env digest recover_only) (disconnect_control env))).0
          ≡ err e
        → IsReleased
            (continue r w
              (λ _. on_error (prepare env digest recover_only) (disconnect_control env))).1
    unfolding on_error
    prepared (ok _) w tidy failed h =
        clean_up-IsReleased _ _
          (ends-IsTidy {k = unknown}
            (prepare-Steps none env (tidy_watch env none) digest recover_only) w tidy)
          h
    prepared (err x) w tidy failed h = failed x refl

    -- An `open` that raises has closed the connection that it has opened, and released the lock if it has
    -- taken it, if nothing was open or held before.
    pub open_settings-IsReleased :
        (w : World Settings) {e : Exc}
        → IsReleased w
        → (open_settings env digest recover_only w).0 ≡ err e
        → IsReleased (open_settings env digest recover_only w).1
    unfolding open_settings ◌>>=◌ ◌>>◌ modify
    open_settings-IsReleased w h raised =
        let start : World Settings = record w {
          self = record w.self { recover_only = recover_only };
        } in
        let (tidy, failed) = connect_control-IsTidy env start h in prepared _ _ tidy failed raised

  await_replicas-Steps :
      {k : Knowledge} (rounds : ℕ) (target : String) (deadline : ℕ) (required : Keys)
      → Steps tidy_protocol k (await_replicas env digest rounds target deadline required) k
  unfolding await_replicas
  await_replicas-Steps zero target deadline required = Steps-raise _
  await_replicas-Steps (suc rounds) target deadline required =
      replica_keys-Steps none env (tidy_watch env none) digest _ ▸ λ caught_up.
      Steps-if _ (Steps-pure tt) (
        quiet env _ refl ▸ λ now.
        Steps-raise_if _ _
        ⨟ quiet env _ refl
        ⨟ await_replicas-Steps rounds target deadline required)

  wait_for_replicas-Steps : {k : Knowledge} → Steps tidy_protocol k (wait_for_replicas env digest) k
  unfolding wait_for_replicas
  wait_for_replicas-Steps = quiet env _ refl ▸ λ target.
      replica_keys-Steps none env (tidy_watch env none) digest _ ▸ λ now. Steps-gets _ ▸ λ s.
      quiet env _ refl ▸ λ started.
      Steps-when _ (await_replicas-Steps _ _ _ _) ⨟ quiet env _ refl ⨟ Steps-pure _

  module _ {E : Type 0} (prepare_database : M Settings E)
      (loads : Steps tidy_protocol held prepare_database held) where
    pub load_data-Steps :
        (required : Keys)
        → Steps tidy_protocol held (load_data env digest prepare_database required) held
    unfolding load_data
    load_data-Steps required =
        changes env _ (λ s. refl)
        ⨟ disable-Steps none env (tidy_watch env none)
        ⨟ loads
        ▸ λ evidence.
            quiet env _ refl
            ⨟ restore-Steps none env (tidy_watch env none)
            ⨟ quiet env _ refl
            ⨟ wait_for_replicas-Steps
            ▸ λ barrier. quiet env _ refl ▸ λ after. Steps-pure _

    loaded :
        (r : Result (Unit {0})) (w : World Settings) (required : Keys)
        → IsTidy w
        → ((e : Exc) → r ≡ err e → IsReleased w)
        → IsReleased
            (continue r w (λ _.
              try_finally (load_data env digest prepare_database required) (close env digest))).1
    unfolding try_finally
    loaded (ok _) w required tidy failed =
        close-IsReleased (load_data env digest prepare_database required w).1
          (ends-IsTidy {k = held} (load_data-Steps required) w tidy)
    loaded (err e) w required tidy failed = failed e refl

    -- However the loading ends, `initialize_database` with settings of its own leaves no control
    -- connection open and no server lock held, if none was before, and if the loading leaves the control
    -- connection to the attributes that account for it.
    pub initialize_database_alone-IsReleased :
        (o : LoadOptions) (kind : ConnectionType) (has_connection : Bool) (required : Keys)
        (w : World Settings)
        → is_open w.trace ≡ false
        → is_locked w.trace ≡ false
        → IsReleased
            (initialize_database_alone env digest prepare_database o kind has_connection required
              w).1
    unfolding initialize_database_alone modify ◌>>=◌ ◌>>◌ create
    initialize_database_alone-IsReleased o kind has_connection required w shut free =
        let start : World Settings = record w { self = create o kind has_connection "postgres" } in
        loaded (open_settings env digest false start).0 (open_settings env digest false start).1
          required
          (ends-IsTidy {k = absent}
            (open_settings-Steps none env (tidy_watch env none) digest false) start
            (shut, free, refl, refl, refl))
          (λ e q. open_settings-IsReleased false start (shut, free, refl, refl, refl) q)
