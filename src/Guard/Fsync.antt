-- ===== src/Guard/Fsync.antt =====
-- `disable`, `restore`, `open` and `close`, seen by the guard.
use pg_perf_bench.Prelude.{ℕ, zero, suc, Bool, refl, String, Option, none, some}
use pg_perf_bench.Effects.{Identity, Journal, Env}
use pg_perf_bench.Effects.Rules.{
  Steps, Steps-pure, Steps-raise, Steps-gets, Steps-raise_if, Steps-or_raise, ◌▸◌, ◌⨟◌, Steps-from,
  Steps-forget, Steps-on_error, Steps-except, Steps-if, Steps-when,
}
use pg_perf_bench.Settings.{Found, nowhere, refused, at_path}
use pg_perf_bench.Settings.{
  save, await_fsync, reload, disable, reconnect_if, confirm_primary, put_back, restore_changed,
  restore, reload_rounds,
}
use pg_perf_bench.Settings.{
  replica_keys, find_journal, recover, settle_fsync, check_replication, prepare, open_settings,
  reopen_after_restart,
}
use pg_perf_bench.Guard.{Knowledge, unknown, held, absent}
use pg_perf_bench.Guard.Watch.{Watch, watched, sync_host-Steps, identify-Steps}

module _ (own : Option String) (env : Env) (W : Watch own env) where
  save-Steps :
      {k : Knowledge} (path : String) (j : Journal) → Steps (watched W) k (save env path j) k
  unfolding save
  save-Steps path j =
      W.neutral _ refl refl refl refl
      ⨟ W.neutral _ refl refl refl refl
      ⨟ W.neutral _ refl refl refl refl
      ⨟ W.neutral _ refl refl refl refl
      ⨟ Steps-pure tt

  await_fsync-Steps :
      {k : Knowledge} (rounds deadline : ℕ) (expected : String)
      → Steps (watched W) k (await_fsync env rounds deadline expected) k
  unfolding await_fsync
  await_fsync-Steps zero deadline expected = Steps-raise _
  await_fsync-Steps (suc rounds) deadline expected = W.neutral _ refl refl refl refl ▸ λ now.
      Steps-if _
        (W.neutral _ refl refl refl refl ▸ λ shown.
          Steps-if _ (Steps-pure tt)
            (W.neutral _ refl refl refl refl ⨟ await_fsync-Steps rounds deadline expected))
        (Steps-raise _)

  reload-Steps : {k : Knowledge} (expected : String) → Steps (watched W) k (reload env expected) k
  unfolding reload
  reload-Steps expected = W.neutral _ refl refl refl refl ⨟ Steps-gets _ ▸ λ o.
      W.neutral _ refl refl refl refl ▸ λ now. await_fsync-Steps reload_rounds _ expected

  pub disable-Steps : Steps (watched W) held (disable env) held
  unfolding disable
  disable-Steps = Steps-gets _ ▸ λ s. Steps-if _ (Steps-pure tt) (
      W.neutral _ refl refl refl refl ▸ λ shown. W.neutral _ refl refl refl refl ▸ λ auto.
      Steps-or_raise _ _ ▸ λ i. W.changes _ (λ s'. refl) ⨟ Steps-or_raise _ _ ▸ λ path.
      save-Steps path _ ⨟ W.changes _ (λ s'. refl) ⨟ W.protected _ refl refl refl ⨟ reload-Steps _)

  reconnect_if-Steps : (closed : Bool) → Steps (watched W) held (reconnect_if env closed) held
  unfolding reconnect_if
  reconnect_if-Steps closed = Steps-when closed (Steps-from W.disconnects ⨟ W.connects ⨟ W.acquires)

  confirm_primary-Steps : {k : Knowledge} → Steps (watched W) k (confirm_primary env) k
  unfolding confirm_primary
  confirm_primary-Steps = W.neutral _ refl refl refl refl ▸ λ standby.
      Steps-raise_if _ _ ⨟ identify-Steps own env W ▸ λ now.
      Steps-gets _ ▸ λ s. Steps-or_raise _ _ ▸ λ before. Steps-raise_if _ _

  put_back-Steps : (value : Option String) → Steps (watched W) held (put_back env value) held
  unfolding put_back
  put_back-Steps none = W.protected _ refl refl refl ⨟ Steps-pure tt
  put_back-Steps (some value) = Steps-raise_if _ _ ⨟ W.protected _ refl refl refl ⨟ Steps-pure tt

  restore_changed-Steps : Steps (watched W) held (restore_changed env) held
  unfolding restore_changed
  restore_changed-Steps = Steps-gets _ ▸ λ s.
      Steps-raise_if _ _ ⨟ W.neutral _ refl refl refl refl ▸ λ closed.
      reconnect_if-Steps _ ⨟ confirm_primary-Steps ⨟ Steps-or_raise _ _ ▸ λ journal.
      put_back-Steps _
      ⨟ reload-Steps _
      ⨟ W.neutral _ refl refl refl refl
      ⨟ sync_host-Steps own env W
      ⨟ Steps-or_raise _ _
      ▸ λ path. W.neutral _ refl refl refl refl ⨟ W.changes _ (λ s. refl)

  pub restore-Steps : Steps (watched W) held (restore env) held
  unfolding restore
  restore-Steps = Steps-gets _ ▸ λ s. Steps-when _ restore_changed-Steps

module _ (own : Option String) (env : Env) (W : Watch own env) (digest : Identity → String) where
  pub replica_keys-Steps :
      {k : Knowledge} (target : Option String)
      → Steps (watched W) k (replica_keys env digest target) k
  unfolding replica_keys
  replica_keys-Steps target =
      W.neutral _ refl refl refl refl ▸ λ reply. Steps-raise_if _ _ ⨟ Steps-pure _

  find_journal-Steps : {k : Knowledge} → Steps (watched W) k (find_journal env digest) k
  unfolding find_journal
  find_journal-Steps = identify-Steps own env W ▸ λ i.
      W.changes _ (λ s. refl) ⨟ W.neutral _ refl refl refl refl ▸ λ files. Steps-pure _

  recover-Steps : (found : Found) → Steps (watched W) held (recover env digest found) held
  unfolding recover
  recover-Steps nowhere = Steps-pure tt
  recover-Steps refused = Steps-raise _
  recover-Steps (at_path path journal) = W.changes _ (λ s. refl) ⨟ Steps-gets _ ▸ λ s.
      Steps-raise_if _ _ ⨟ W.changes _ (λ s. refl) ⨟ restore-Steps own env W

  settle_fsync-Steps :
      (off pending : Bool) → Steps (watched W) held (settle_fsync env digest off pending) held
  unfolding settle_fsync
  settle_fsync-Steps off pending = Steps-if _ find_journal-Steps (Steps-pure _) ▸ λ found.
      recover-Steps found
      ⨟ Steps-when off (
          W.neutral _ refl refl refl refl ▸ λ source.
          Steps-raise_if _ _ ⨟ sync_host-Steps own env W)

  check_replication-Steps : {k : Knowledge} → Steps (watched W) k (check_replication env digest) k
  unfolding check_replication
  check_replication-Steps =
      Steps-except
        (replica_keys-Steps _ ▸ λ keys.
          W.changes _ (λ s. refl)
          ⨟ W.neutral _ refl refl refl refl
          ⨟ W.neutral _ refl refl refl refl
          ⨟ Steps-pure tt)
        (λ e. Steps-raise _)

  pub prepare-Steps :
      {k : Knowledge} (recover_only : Bool)
      → Steps (watched W) k (prepare env digest recover_only) held
  unfolding prepare
  prepare-Steps recover_only = W.neutral _ refl refl refl refl ▸ λ standby.
      Steps-raise_if _ _ ⨟ W.acquires ⨟ W.neutral _ refl refl refl refl ▸ λ superuser.
      W.neutral _ refl refl refl refl ▸ λ pending. Steps-raise_if _ _ ⨟ Steps-gets _ ▸ λ s.
      Steps-raise_if _ _
      ⨟ Steps-raise_if _ _
      ⨟ Steps-when _ (settle_fsync-Steps _ _)
      ⨟ Steps-when _ check_replication-Steps

  -- `open` returns with the lock confirmed, and has changed no setting without it.
  pub open_settings-Steps :
      (recover_only : Bool) → Steps (watched W) absent (open_settings env digest recover_only) held
  unfolding open_settings
  open_settings-Steps recover_only =
      W.changes _ (λ s. refl)
      ⨟ W.connects
      ⨟ Steps-on_error (prepare-Steps recover_only) (Steps-forget W.disconnects)

  pub reopen_after_restart-Steps : Steps (watched W) unknown (reopen_after_restart env digest) held
  unfolding reopen_after_restart
  reopen_after_restart-Steps = W.disconnects ⨟ Steps-gets _ ▸ λ s. open_settings-Steps _
